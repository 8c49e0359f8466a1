-- ===== src/Discovery/Records/RoundTrip.antt =====
-- What a worker decodes of the records that a server encodes.
use exposure.Base.{ℕ, ◌^◌, ◌<◌, ◌≡◌, ◌≢◌, length, refl, true, false, [], ◌∷◌, ◌==◌, arith}
use exposure.Base.Text.{Text}
use exposure.Base.Decimal.{to_string, to_uint16, plus, is_digit}
use exposure.Base.Decimal.RoundTrip.{AllDigits, to_string-AllDigits, stoi-to_string}
use exposure.Base.Outcome.{ok}
use exposure.Discovery.Records.{
  ServerConfiguration, AvahiStringList, is_key, c_str, name_key, work_key, communication_key,
  encode_dnssd_txt, avahi_decode_txt_part, decode_dnssd_txt,
}

-- A text without null characters.
abbrev pub IsCText : Text → Type 0
IsCText [] = Unit {0}
IsCText (c ∷ s) = ((c == 0) ≡ false) × IsCText s

pub c_str_all : (s : Text) → IsCText s → c_str s ≡ s
unfolding c_str
c_str_all [] h = refl
c_str_all (c ∷ s) h = rw (h.0, c_str_all s h.1)

AllDigits-IsCText : (s : Text) → AllDigits s → IsCText s
AllDigits-IsCText [] h = tt
AllDigits-IsCText (c ∷ s) h =
    let digit : is_digit c ≡ true = h.0 in (ground arith, AllDigits-IsCText s h.1)

pub record IsConfiguration (c : ServerConfiguration) : Type 0 where
  pub name_plain : IsCText c.name
  pub work_fits : c.work_port < 2 ^ 16
  pub communication_fits : c.communication_port < 2 ^ 16

port_text : (n : ℕ) → c_str (to_string n) ≡ to_string n
port_text n = c_str_all (to_string n) (AllDigits-IsCText (to_string n) (to_string-AllDigits n))

to_uint16-plus : (n : ℕ) → n < 2 ^ 16 → to_uint16 (plus n) ≡ n
unfolding to_uint16
to_uint16-plus n h = omega arith

module _ (avahi : AvahiStringList) where
  open avahi use {Strings, null, add_pair, find_added, find_before, get_added}

  part_added :
      (l : Strings) (k v : Text)
      → is_key k ≡ true
      → avahi_decode_txt_part avahi (add_pair l k v) k ≡ ok v
  unfolding avahi_decode_txt_part
  part_added l k v h = rw (find_added l k v h, get_added l k v h, avahi_decode_txt_part)

  part_before :
      (l : Strings) (k v j : Text)
      → is_key k ≡ true
      → is_key j ≡ true
      → length k ≢ length j
      → avahi_decode_txt_part avahi (add_pair l k v) j ≡ avahi_decode_txt_part avahi l j
  unfolding avahi_decode_txt_part
  part_before l k v j h h' differ = rw (find_before l k v j h h' differ, avahi_decode_txt_part)

-- A worker decodes the configuration that a server encoded, if its name has no null character and
-- its ports have 16 bits.
pub decode_dnssd_txt-encode_dnssd_txt :
    (avahi : AvahiStringList) (c : ServerConfiguration)
    → IsConfiguration c
    → decode_dnssd_txt avahi (encode_dnssd_txt avahi c) ≡ ok c
unfolding decode_dnssd_txt encode_dnssd_txt
decode_dnssd_txt-encode_dnssd_txt avahi c v = rw (
  part_before avahi _ communication_key _ name_key refl refl (omega arith),
  part_before avahi _ work_key _ name_key refl refl (omega arith),
  part_added avahi avahi.null name_key (c_str c.name) refl,
  part_before avahi _ communication_key _ work_key refl refl (omega arith),
  part_added avahi _ work_key (c_str (to_string c.work_port)) refl,
  part_added avahi _ communication_key (c_str (to_string c.communication_port)) refl,
  c_str_all c.name v.name_plain,
  port_text c.work_port,
  port_text c.communication_port,
  stoi-to_string c.work_port (omega (arith, v.work_fits)),
  stoi-to_string c.communication_port (omega (arith, v.communication_fits)),
  to_uint16-plus c.work_port v.work_fits,
  to_uint16-plus c.communication_port v.communication_fits,
)
