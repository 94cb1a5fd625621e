-- ===== src/FlashCfg/Params.antt =====
-- The parameters of common/cm_flash_cfg.c: the enumeration, and its tables of names and lengths.
use jklibs.Common.{ℕ, ◌*◌, List, [], ◌∷◌}
use jklibs.Common.Text.{codes}

-- cfg_param_type, without the count.
pub data Param : Type 0 where
  mac ssid encryption password ip dhcp_start dhcp_end wpa_cipher airplay_name dlna_name : Param
  fw_version host_name model_name model_number model_description manufacturer url_manufacturer :
      Param
  dms_name dms_enable flag qqsn license license_res license_res2 qqpid version_flag update_flag :
      Param
  mqtt_domainname mqtt_prefix mqtt_devicetype mqtt_deviceid mqtt_product_id mqtt_devicename : Param
  mqtt_username mqtt_pw mqtt_token_id : Param

-- CFG_DATA_LEN
abbrev pub cfg_data_len : ℕ
cfg_data_len = 64

-- g_parameter_data_len
abbrev pub data_len : Param → ℕ
data_len license = cfg_data_len * 3
data_len p = cfg_data_len

-- g_cfg_parameter_name
abbrev pub parameter_name : Param → List ℕ
parameter_name mac = codes "mac"
parameter_name ssid = codes "ssid"
parameter_name encryption = codes "encryption"
parameter_name password = codes "password"
parameter_name ip = codes "ip"
parameter_name dhcp_start = codes "dhcp_start"
parameter_name dhcp_end = codes "dhcp_end"
parameter_name wpa_cipher = codes "wpa_cipher"
parameter_name airplay_name = codes "airplay_name"
parameter_name dlna_name = codes "dlna_name"
parameter_name fw_version = codes "fw_version"
parameter_name host_name = codes "host_name"
parameter_name model_name = codes "model_name"
parameter_name model_number = codes "model_number"
parameter_name model_description = codes "model_description"
parameter_name manufacturer = codes "manufacturer"
parameter_name url_manufacturer = codes "url_manufacturer"
parameter_name dms_name = codes "dms_name"
parameter_name dms_enable = codes "dms_enable"
parameter_name flag = codes "flag"
parameter_name qqsn = codes "qqsn"
parameter_name license = codes "license"
parameter_name license_res = codes "license_res"
parameter_name license_res2 = codes "license_res2"
parameter_name qqpid = codes "qqpid"
parameter_name version_flag = codes "version_flag"
parameter_name update_flag = codes "update_flag"
parameter_name mqtt_domainname = codes "mqtt_domainname"
parameter_name mqtt_prefix = codes "mqtt_prefix"
parameter_name mqtt_devicetype = codes "mqtt_devicetype"
parameter_name mqtt_deviceid = codes "mqtt_deviceid"
parameter_name mqtt_product_id = codes "mqtt_product_id"
parameter_name mqtt_devicename = codes "mqtt_deviceName"
parameter_name mqtt_username = codes "mqtt_username"
parameter_name mqtt_pw = codes "mqtt_pw"
parameter_name mqtt_token_id = codes "mqtt_token_id"

-- The value of the enumerator.
abbrev pub index : Param → ℕ
index mac = 0
index ssid = 1
index encryption = 2
index password = 3
index ip = 4
index dhcp_start = 5
index dhcp_end = 6
index wpa_cipher = 7
index airplay_name = 8
index dlna_name = 9
index fw_version = 10
index host_name = 11
index model_name = 12
index model_number = 13
index model_description = 14
index manufacturer = 15
index url_manufacturer = 16
index dms_name = 17
index dms_enable = 18
index flag = 19
index qqsn = 20
index license = 21
index license_res = 22
index license_res2 = 23
index qqpid = 24
index version_flag = 25
index update_flag = 26
index mqtt_domainname = 27
index mqtt_prefix = 28
index mqtt_devicetype = 29
index mqtt_deviceid = 30
index mqtt_product_id = 31
index mqtt_devicename = 32
index mqtt_username = 33
index mqtt_pw = 34
index mqtt_token_id = 35

-- The order of the enumeration, in which both tables are walked.
abbrev pub all_params : List Param
all_params =
    mac ∷ ssid ∷ encryption ∷ password ∷ ip ∷ dhcp_start ∷ dhcp_end ∷ wpa_cipher ∷ airplay_name
    ∷ dlna_name ∷ fw_version ∷ host_name ∷ model_name ∷ model_number ∷ model_description
    ∷ manufacturer ∷ url_manufacturer ∷ dms_name ∷ dms_enable ∷ flag ∷ qqsn ∷ license ∷ license_res
    ∷ license_res2 ∷ qqpid ∷ version_flag ∷ update_flag ∷ mqtt_domainname ∷ mqtt_prefix
    ∷ mqtt_devicetype ∷ mqtt_deviceid ∷ mqtt_product_id ∷ mqtt_devicename ∷ mqtt_username ∷ mqtt_pw
    ∷ mqtt_token_id ∷ []
