-- ===== src/Discovery/Records.antt =====
-- `encode_dnssd_txt`, `decode_dnssd_txt` and `avahi_decode_txt_part` of src/network.cpp.
pub mod RoundTrip
use exposure.Base.{
  ℕ, ◌≡◌, ◌≢◌, length, Bool, true, false, Option, none, some, List, [], ◌∷◌, ◌==◌, if◌then◌else◌,
}
use exposure.Base.Text.{Text, bytes, text_eq}
use exposure.Base.Decimal.{to_string, stoi, to_uint16}
use exposure.Base.Outcome.{Outcome, ok, err, ◌>>=◌, uncaught}

pub record ServerConfiguration : Type 0 where
  pub name : Text
  pub work_port : ℕ
  pub communication_port : ℕ

-- A key is a text without `=`, which ends the key of an entry.
abbrev pub is_key : Text → Bool
is_key [] = true
is_key (c ∷ s) = if c == b'=' then false else is_key s

-- Avahi's lists of strings. A pair is added in front and found by its key, and is passed over for a
-- key of another length.
pub record AvahiStringList : Type 1 where
  pub Strings : Type 0
  pub null : Strings
  pub add_pair : Strings → Text → Text → Strings
  pub find : Strings → Text → Option Strings
  pub get_pair : Strings → Text × Text
  pub find_added :
      (l : Strings) (k v : Text) → is_key k ≡ true → find (add_pair l k v) k ≡ some (add_pair l k v)
  pub find_before :
      (l : Strings) (k v j : Text)
      → is_key k ≡ true
      → is_key j ≡ true
      → length k ≢ length j
      → find (add_pair l k v) j ≡ find l j
  pub get_added : (l : Strings) (k v : Text) → is_key k ≡ true → get_pair (add_pair l k v) ≡ (k, v)

-- `c_str`, as a C function reads it: up to the first null character.
unfoldable pub c_str : Text → Text
c_str [] = []
c_str (c ∷ s) = if c == 0 then [] else c ∷ c_str s

abbrev pub name_key : Text
name_key = bytes "server-name"

abbrev pub work_key : Text
work_key = bytes "work-port"

abbrev pub communication_key : Text
communication_key = bytes "communication-port"

module _ (avahi : AvahiStringList) where
  open avahi use {Strings, null, add_pair, find, get_pair}

  unfoldable pub encode_dnssd_txt : ServerConfiguration → Strings
  encode_dnssd_txt c =
      let named = add_pair null name_key (c_str c.name) in
      let worked = add_pair named work_key (c_str (to_string c.work_port)) in
      add_pair worked communication_key (c_str (to_string c.communication_port))

  -- `runtime_error` if the key is not there.
  unfoldable pub avahi_decode_txt_part : Strings → Text → Outcome Text
  avahi_decode_txt_part record_list key = elim (find record_list key) [
    | none ↦ err uncaught
    | some at_key ↦ ok (get_pair at_key).1
  ]

  unfoldable pub decode_dnssd_txt : Strings → Outcome ServerConfiguration
  unfolding avahi_decode_txt_part
  decode_dnssd_txt txt = do
    server_name ← avahi_decode_txt_part txt name_key
    work ← avahi_decode_txt_part txt work_key
    communication ← avahi_decode_txt_part txt communication_key
    work_port ← stoi work
    communication_port ← stoi communication
    ok (record {
      name = server_name;
      work_port = to_uint16 work_port;
      communication_port = to_uint16 communication_port;
    })
