-- ===== src/Torrent/Tracker/RoundTrip.antt =====
-- inc/trackers/tracker_details.h, `to_string`: the URL of a tracker is read back.
use bittorent_client.Common.{
  ℕ, ◌<◌, ◌≡◌, ◌⊎◌, inl, inr, refl, sym, ap, ◌∙◌, Bytes, false, some, [], ◌∷◌, ◌++◌, ok, ◌==◌, All,
  arith, u16_mod, append_assoc,
}
use mathlib.Core.Path.{subst}
use bittorent_client.Common.Int.{pos}
use bittorent_client.Common.Text.{text}
use bittorent_client.Common.ByteStrings.{bytes_eq}
use bittorent_client.Common.Decimal.{to_string, signed, IsDigit, to_string_lem, leading_digits-All}
use bittorent_client.Dht.Krpc.{to_u16}
use bittorent_client.Torrent.Tracker.{
  TrackerProtocol, http, https, udp, from_scheme, details_to_string, split_at, split_scheme,
  skip_spaces, stoi, read_location, read_url, extract_tracker_information,
}

-- The character does not stand in the text.
abbrev pub IsFreeOf : ℕ → Bytes → Type 0
IsFreeOf c s = All (λ x. (x == c) ≡ false) s

pub split_at-append :
    (c : ℕ) (xs s : Bytes) → IsFreeOf c xs → split_at c (xs ++ (c ∷ s)) ≡ (xs, some s)
unfolding split_at
split_at-append c [] s h = ground arith
split_at-append c (x ∷ xs) s h = rw (h.0, split_at-append c xs s (h.1)) refl

digits-IsFreeOf : (c : ℕ) (ds : Bytes) → c < b'0' → All IsDigit ds → IsFreeOf c ds
digits-IsFreeOf c [] l h = tt
digits-IsFreeOf c (d ∷ ds) l h = (ground (arith, h.0), digits-IsFreeOf c ds l h.1)

pub free_append : (c : ℕ) (xs ys : Bytes) → IsFreeOf c xs → IsFreeOf c ys → IsFreeOf c (xs ++ ys)
free_append c [] ys h k = k
free_append c (x ∷ xs) ys h k = (h.0, free_append c xs ys h.1 k)

pub stoi-to_string : (n : ℕ) → n < u16_mod → stoi (to_string n) ≡ ok (pos n)
unfolding stoi skip_spaces signed
stoi-to_string n l =
    let (c, cs, e, d, v) = to_string_lem n in
    rw e (let whole = leading_digits-All (c ∷ cs) d in ground (arith, whole, d.0, v, l))

pub to_string-IsFreeOf : (c n : ℕ) → c < b'0' → IsFreeOf c (to_string n)
to_string-IsFreeOf c n l =
    let (first, rest, e, d, v) = to_string_lem n in rw e (digits-IsFreeOf c (first ∷ rest) l d)

-- The protocols that the client knows.
abbrev pub IsKnown : TrackerProtocol → Type 0
IsKnown p = (p ≡ http) ⊎ ((p ≡ https) ⊎ (p ≡ udp))

-- A known protocol is found again from its scheme.
read_url-scheme :
    (p : TrackerProtocol)
    → IsKnown p
    → (s : Bytes) → read_url (split_scheme (p.scheme ++ (text "://" ++ s))) ≡ read_location p s
unfolding split_scheme from_scheme bytes_eq
read_url-scheme p (inl e) s =
    subst (λ q. read_url (split_scheme (q.scheme ++ (text "://" ++ s))) ≡ read_location q s) (sym e)
      refl
read_url-scheme p (inr (inl e)) s =
    subst (λ q. read_url (split_scheme (q.scheme ++ (text "://" ++ s))) ≡ read_location q s) (sym e)
      refl
read_url-scheme p (inr (inr e)) s =
    subst (λ q. read_url (split_scheme (q.scheme ++ (text "://" ++ s))) ≡ read_location q s) (sym e)
      refl

abbrev location : Bytes → ℕ → Bytes → Bytes
location host port path = host ++ (b':' ∷ (to_string port ++ path))

small : (n : ℕ) → n < u16_mod → to_u16 (pos n) ≡ n
unfolding to_u16
small n l = omega arith

read_location_lem :
    (protocol : TrackerProtocol) (host : Bytes) (port : ℕ) (path : Bytes)
    → IsFreeOf b':' host
    → IsFreeOf b'/' host
    → port < u16_mod
    → read_location protocol (location host port (b'/' ∷ path))
      ≡ ok (record { protocol = protocol; hostname = host; port = port; path = b'/' ∷ path })
read_location_lem protocol host port path colon slash l =
    let front : Bytes = host ++ (b':' ∷ to_string port) in
    let whole : location host port (b'/' ∷ path) ≡ front ++ (b'/' ∷ path) =
      sym (append_assoc host (b':' ∷ to_string port) (b'/' ∷ path)) in
    let cut_path : split_at b'/' (front ++ (b'/' ∷ path)) ≡ (front, some path) =
      split_at-append b'/' front path (
        free_append b'/' host (b':' ∷ to_string port) slash
          (refl, to_string-IsFreeOf b'/' port (omega arith))) in
    let cut_host : split_at b':' front ≡ (host, some (to_string port)) =
      split_at-append b':' host (to_string port) colon in
    rw (whole, cut_path, cut_host, stoi-to_string port l)
      (ap (λ n. ok (record { protocol = protocol; hostname = host; port = n; path = b'/' ∷ path }))
        (small port l))

-- The URL that is printed for a tracker is read back as that tracker, for the protocols http, https and
-- udp, a host without `:` and `/`, a port of 16 bits and a path that begins with `/`.
pub extract_tracker_information-details_to_string :
    (protocol : TrackerProtocol) (host : Bytes) (port : ℕ) (path : Bytes)
    → IsKnown protocol
    → IsFreeOf b':' host
    → IsFreeOf b'/' host
    → port < u16_mod
    → extract_tracker_information (
        details_to_string
          (record { protocol = protocol; hostname = host; port = port; path = b'/' ∷ path }))
      ≡ ok (record { protocol = protocol; hostname = host; port = port; path = b'/' ∷ path })
unfolding extract_tracker_information details_to_string
extract_tracker_information-details_to_string protocol host port path known colon slash l =
    read_url-scheme protocol known (location host port (b'/' ∷ path))
    ∙ read_location_lem protocol host port path colon slash l
