-- ===== src/Rasp/Tests.antt =====
-- Runs of the router protocol, with a document that is a function.
use jklibs.Common.{
  ℕ, zero, suc, ◌-◌, ◌∷◌, Bool, true, false, ◌≡◌, refl, ap, ◌&&◌, List, [], Option, none, some,
  arith, if◌then◌else◌, take, length, Bool-cases, inl, inr,
}
use jklibs.Common.Int.{pos}
use jklibs.Common.Text.{codes, same_text, same_text_refl, same_text-eq}
use jklibs.Common.Decimal.{print_int, print_nat, digits_fuel, atoi-print}
use jklibs.Common.Outcome.{done}
use jklibs.Rasp.Names.{subcmd_table, int_str}
use jklibs.Rasp.Commands.{Compares}
use jklibs.Rasp.Header.{
  Header, Json, sign_text, generate_header, header_ready_data, parse_data_header,
}
use jklibs.Rasp.Document.{Sections, Counts}
use jklibs.Rasp.Body.{Body, Rasp, Content, no_item}
use jklibs.Rasp.Process.{process_bindlists_result, with_lists}
use jklibs.Rasp.Bodies.{HasEntries, in_lists, items, process_bindlists-items}
use jklibs.Rasp.Signing.{Stores, parse-generate, parse_data_header-sign}

abbrev Doc : Type 0
Doc = List ℕ → List ℕ → Option (List ℕ)

abbrev functions : Json Doc
functions = record {
  get = λ d s n. d s n;
  put = λ d s n t. λ s2 n2. if same_text s s2 && same_text n n2 then some t else d s2 n2;
}

functions-Stores : Stores functions
functions-Stores = record {
  same_name = λ d s n t p q. rw (same_text_refl s, same_text_refl n) refl;
  other_name = λ d s n t n2 p q r e. rw (same_text_refl s, e) refl;
}

same_text-Compares : Compares same_text
same_text-Compares = record {
  itself = same_text_refl;
  lengths = λ s t ne. elim (Bool-cases (same_text s t)) [
    | inl e ↦ absurd (ne (ap length (same_text-eq s t e)))
    | inr e ↦ e
  ];
}

abbrev no_hash : List ℕ → List ℕ
no_hash s = codes "0123456789abcdef0123456789abcdef"

abbrev blank : Header
blank = record {
  cmd_number = 0;
  subcmd_number = 0;
  cmd = [];
  subcmd = [];
  id = [];
  time = pos 0;
  sign = [];
  source = [];
}

abbrev nothing : Doc
nothing s n = none

-- KF_RASP_SUBCMD_CONNECTREQUEST has no name.
no_name : int_str subcmd_table 4 ≡ none
unfolding int_str
no_name = refl

abbrev sent : Header
sent =
    (generate_header no_hash print_int same_text functions (pos 1452166191) blank 1 5
      (codes "router-7")).0

parse-generate_example :
    ((generate_header no_hash print_int same_text functions
        (pos 1452166191)
        blank
        1
        5
        (codes "router-7")).1
      ≡ done tt)
    × (parse_data_header no_hash print_int same_text functions
          (header_ready_data no_hash print_int same_text functions nothing sent)
          blank
        ≡ (
          record blank {
            subcmd_number = 5;
            subcmd = codes "bindLists";
            id = take 7 (codes "router-7");
            time = pos 1452166191;
            sign = sent.sign;
          },
          done tt,
        ))
parse-generate_example =
    parse-generate no_hash print_int same_text functions functions-Stores same_text-Compares nothing
      (header_ready_data no_hash print_int same_text functions nothing sent) blank blank
      (pos 1452166191) 1 5 (codes "router-7") (codes "query") (codes "bindLists") (λ s. omega arith)
      (atoi-print 1452166191) (omega arith) (unfold int_str in refl) (unfold int_str in refl)
      (λ name step. refl)

abbrev accepted : Header
accepted =
    (parse_data_header no_hash print_int same_text functions
      (header_ready_data no_hash print_int same_text functions nothing sent) blank).0

sent-accepted :
    parse_data_header no_hash print_int same_text functions
      (header_ready_data no_hash print_int same_text functions nothing sent)
      blank
    ≡ (accepted, done tt)
sent-accepted =
    let ends =
      (parse-generate no_hash print_int same_text functions functions-Stores same_text-Compares
        nothing (header_ready_data no_hash print_int same_text functions nothing sent) blank blank
        (pos 1452166191) 1 5 (codes "router-7") (codes "query") (codes "bindLists")
        (λ s. omega arith) (atoi-print 1452166191) (omega arith) (unfold int_str in refl)
        (unfold int_str in refl) (λ name step. refl)).1 in
    ap (λ r. (accepted, r)) (ap (λ p. p.1) ends)

parse_data_header-sign_example : no_hash (sign_text accepted) ≡ accepted.sign
parse_data_header-sign_example =
    parse_data_header-sign no_hash print_int same_text functions
      (header_ready_data no_hash print_int same_text functions nothing sent) blank accepted
      sent-accepted

-- A document whose texts are the same in every section, with the sections that are pushed.
abbrev Pushed : Type 0
Pushed = List (List ℕ)

abbrev pop_section : Pushed → Pushed
pop_section [] = []
pop_section (s ∷ d) = d

abbrev texts : List ℕ → Option (List ℕ)
texts name =
    if same_text name (codes ".resultCode")
    then some (codes "SUCCESS")
    else if same_text name (codes ".bindLists[0].deviceMac")
    then some (codes "001122334455")
    else if same_text name (codes ".bindLists[0].routerMac")
    then some (codes "66778899aabb")
    else none

abbrev sections : Sections Pushed
sections = record {
  push = λ d s. s ∷ d;
  push_fails = λ d s. false;
  pop = pop_section;
  string = λ d s. texts s;
  count = λ d s. pos 1;
  set_string = λ d s t. d;
  set_null = λ d s. d;
  load = λ d s. some d;
  print = λ d n. some (codes "{}", pos 2);
}

length-pop_section : (d : Pushed) → length (pop_section d) ≡ length d - 1
length-pop_section [] = refl
length-pop_section (s ∷ d) = omega arith

sections-Counts : Counts sections length
sections-Counts = record {
  made = λ d s. refl;
  depth-push = λ d s. refl;
  depth-pop = length-pop_section;
  depth-set_string = λ d s t. refl;
  depth-set_null = λ d s. refl;
}

abbrev body : Body
body = record { number = 8; result_code = []; result_data = []; content = Content.item no_item }

abbrev rasp : Rasp Pushed
rasp = record { header = blank; body = body; json = [] }

abbrev all_memory : ℕ → Bool
all_memory n = true

abbrev device_mac : ℕ → List ℕ
device_mac i = codes "001122334455"

abbrev router_mac : ℕ → List ℕ
router_mac i = codes "66778899aabb"

one_entry :
    HasEntries no_hash print_int same_text all_memory sections
      (in_lists no_hash print_int same_text all_memory sections [])
      device_mac
      router_mac
      1
unfolding print_nat digits_fuel
one_entry zero h = (refl, refl)
one_entry (suc i) h = absurd (omega arith)

process_bindlists-items_example :
    process_bindlists_result sections same_text all_memory [] body
    ≡ done (
      codes ".MsgBody" ∷ [],
      with_lists
          (record body { number = 7; result_code = codes "SUCCESS" })
          (pos 1)
          (some (items no_hash print_int same_text all_memory sections device_mac router_mac 1 0)),
      pos 0,
    )
process_bindlists-items_example =
    process_bindlists-items no_hash print_int same_text all_memory sections [] body
      (codes "SUCCESS") device_mac router_mac 0 refl refl refl (omega arith) refl one_entry
