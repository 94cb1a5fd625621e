-- ===== src/Rasp/Body.antt =====
-- The body of a message of protocol/rasp/kfrasp.h, and kf_rasp_set_body of kfrasp.c.
use jklibs.Common.{ℕ, List, [], Option, none}
use jklibs.Common.Int.{ℤ, negsuc}
use jklibs.Rasp.Header.{Header}

-- KFDeviceInfo
pub record DeviceInfo : Type 0 where
  pub name : List ℕ
  pub addr : List ℕ
  pub mac : List ℕ

-- KFConnectItemInfo
pub record ConnectItemInfo : Type 0 where
  pub name : List ℕ
  pub addr : List ℕ
  pub device_mac : List ℕ
  pub router_mac : List ℕ

-- KFConnectAuthority
pub record ConnectAuthority : Type 0 where
  pub addr : List ℕ
  pub port : ℤ
  pub user_name : List ℕ
  pub password : List ℕ
  pub local_mac : List ℕ
  pub secret_key : List ℕ
  pub type : ℤ
  pub status : ℤ

-- KFBindLists; `cii` is a pointer or NULL.
pub record BindLists : Type 0 where
  pub counts : ℤ
  pub cii : Option (List ConnectItemInfo)

-- The union in KFRaspBody.
pub data Content : Type 0 where
  zeroed : Content
  device : DeviceInfo → Content
  item : ConnectItemInfo → Content
  authority : ConnectAuthority → Content
  lists : BindLists → Content

-- KFRaspBody; `number` is iData.
pub record Body : Type 0 where
  pub number : ℕ
  pub result_code : List ℕ
  pub result_data : List ℕ
  pub content : Content

abbrev pub no_item : ConnectItemInfo
no_item = record { name = []; addr = []; device_mac = []; router_mac = [] }

-- What a member of the union holds before it is written, if it is the one in use. What another
-- member has left in its place is not modelled: it is taken to be zeros.
abbrev pub mac_of : Content → List ℕ
mac_of (device di) = di.mac
mac_of _ = []

abbrev pub cii_of : Content → Option (List ConnectItemInfo)
cii_of (lists bl) = bl.cii
cii_of _ = none

-- struct tagKFRasp, with its document.
pub record Rasp {ℓ} (S : Type ℓ) : Type ℓ where
  pub header : Header
  pub body : Body
  pub json : S

-- kf_rasp_set_body: the body is stored, and -2 returned.
abbrev pub set_body {ℓ} : {S : Type ℓ} → Rasp S → Body → Rasp S × ℤ
set_body rasp body = (record rasp { body = body }, negsuc 1)

-- kf_rasp_cmd, kf_rasp_subcmd and kf_rasp_body
abbrev pub rasp_cmd {ℓ} : {S : Type ℓ} → Rasp S → ℕ
rasp_cmd rasp = rasp.header.cmd_number

abbrev pub rasp_subcmd {ℓ} : {S : Type ℓ} → Rasp S → ℕ
rasp_subcmd rasp = rasp.header.subcmd_number

abbrev pub rasp_body {ℓ} : {S : Type ℓ} → Rasp S → Body
rasp_body rasp = rasp.body
