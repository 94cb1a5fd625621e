-- ===== src/V4.antt =====
-- jkprotocol/v4: the two-byte header protocol of v4.c.
-- A C `int` of the header is its 32-bit pattern, a number below 2 ^ 32; a `char` is a byte.
-- Whether `char` is signed depends on the platform, so it is a parameter of the parser.
-- `calloc` is a parameter too: which sizes it grants.
pub mod Fields
pub mod Messages
mod Tests
use jklibs.Common.{
  ℕ, zero, suc, ◌+◌, ◌-◌, ◌^◌, ◌%◌, Bool, true, false, ◌&&◌, ◌||◌, not, List, [], ◌∷◌, ◌++◌, Option,
  none, some, ltb, leb, ◌==◌, if◌then◌else◌, length, take, drop, replicate, get_elem?,
}
use jklibs.Common.Bits.{bit_test, copy_bits}
use jklibs.Common.Outcome.{Outcome, done, err, fault, ◌>>=◌}
use Prim.Native.Nat.{bit_or}

-- JKProV4Header
pub record Header : Type 0 where
  pub version : ℕ
  pub crypt : ℕ
  pub ack : ℕ
  pub length : ℕ

-- JKProV4: the header, and the buffer of `szBody` (`none` is NULL). The function pointers are
-- fixed by `jk_pro_v4_init` and not part of the state.
pub record JkProV4 : Type 0 where
  pub header : Header
  pub body : Option (List ℕ)

-- memcpy(dst + at, src, n)
pub memcpy : List ℕ → ℕ → Option (List ℕ) → ℕ → Outcome (List ℕ)
memcpy dst at none n = if n == 0 then done dst else fault
memcpy dst at (some src) n =
    if ltb (length src) n || ltb (length dst) (at + n)
    then fault
    else done (take at dst ++ (take n src ++ drop (at + n) dst))

-- `int` to `size_t`: the sign is extended.
pub size_of_int : ℕ → ℕ
size_of_int n = if ltb n (2 ^ 31) then n else n + (2 ^ 64 - 2 ^ 32)

-- `char` to `int`, as a pattern.
pub widen : Bool → ℕ → ℕ
widen signed b = if signed && leb 128 b then b + (2 ^ 32 - 2 ^ 8) else b

-- The first byte: version, crypt, and the acknowledgement at the bit where the loop over `crypt`
-- has left `i`, which is 2.
pub first_byte : Header → ℕ
unfolding copy_bits
first_byte h =
    let p = copy_bits (2 ^ 8) 2 0 0 2 h.crypt (copy_bits (2 ^ 8) 4 0 0 4 h.version 0) in
    if h.ack == 0 then p else bit_or p (2 ^ 2)

-- The second byte: all 32 bits of the length are or-ed into one `char`.
pub second_byte : ℕ → ℕ
unfolding copy_bits
second_byte n = copy_bits (2 ^ 8) 32 0 0 0 n 0

-- What `jk_pro_v4_parse` reads off the two bytes.
pub read_header : Bool → ℕ → ℕ → Header
unfolding copy_bits widen
read_header signed b0 b1 = record {
  version = copy_bits (2 ^ 32) 4 0 4 0 (widen signed b0) 0;
  crypt = copy_bits (2 ^ 32) 2 0 2 0 (widen signed b0) 0;
  ack = if bit_test (widen signed b0) 1 then 1 else 0;
  length = copy_bits (2 ^ 32) 32 0 0 0 (widen signed b1) 0;
}

abbrev pub no_header : Header
no_header = record { version = 0; crypt = 0; ack = 0; length = 0 }

unfoldable pub init : ℕ → ℕ → JkProV4
init version crypt = record {
  header = record no_header { version = version; crypt = crypt };
  body = none;
}

unfoldable pub deinit : JkProV4 → JkProV4
deinit v = record { header = no_header; body = none }

-- Clears all but version and crypt.
unfoldable pub clear : JkProV4 → JkProV4
clear v = record {
  header = record { version = v.header.version; crypt = v.header.crypt; ack = 0; length = 0 };
  body = none;
}

unfoldable pub set_header : JkProV4 → ℕ → ℕ → JkProV4
set_header v ack len = record {
  header = record { version = v.header.version; crypt = v.header.crypt; ack = ack; length = len };
  body = v.body;
}

unfoldable pub free_body : JkProV4 → JkProV4
free_body v = record v { body = none }

abbrev pub no_state : JkProV4
no_state = record { header = no_header; body = none }

-- The body pointer is set to what was allocated and filled, or stays NULL.
abbrev pub store : Header → Outcome (List ℕ) → JkProV4 × Outcome (Unit {0})
store h (done filled) = (record { header = h; body = some filled }, done tt)
store h (err n) = (record { header = h; body = none }, err n)
store h fault = (record { header = h; body = none }, fault)

module _ (grants : ℕ → Bool) where
  -- calloc(1, n)
  unfoldable pub calloc : ℕ → ℕ → Outcome (List ℕ)
  calloc n code = if grants n then done (replicate n 0) else err code

  -- The old body is not freed; the pointer is overwritten.
  unfoldable pub set_body : JkProV4 → List ℕ → JkProV4 × Outcome (Unit {0})
  set_body v text =
      let n = size_of_int v.header.length in
      store v.header (calloc n 2 >>= λ fresh. memcpy fresh 0 (some text) n)

  unfoldable pub to_bytes : JkProV4 → Outcome (List ℕ)
  to_bytes v = do
    fresh ← calloc (size_of_int ((v.header.length + 2) % 2 ^ 32)) 2
    room ← if ltb (length fresh) 2 then fault else done fresh
    memcpy (first_byte v.header ∷ (second_byte v.header.length ∷ drop 2 room)) 2 v.body
        (size_of_int v.header.length)

  -- `bytes` is the memory from the pointer on. The old header and body are dropped first. The new
  -- body gets `sizeof(int)` bytes.
  unfoldable pub parse : Bool → JkProV4 → List ℕ → JkProV4 × Outcome (Unit {0})
  parse signed v [] = (no_state, fault)
  parse signed v (b0 ∷ []) = (no_state, fault)
  parse signed v (b0 ∷ (b1 ∷ rest)) =
      let h = read_header signed b0 b1 in
      if leb (2 ^ 30) h.length && ltb h.length (2 ^ 31)
      then (record { header = h; body = none }, err 3)
      else store h (calloc 4 4 >>= λ fresh. memcpy fresh 0 (some rest) (size_of_int h.length))
