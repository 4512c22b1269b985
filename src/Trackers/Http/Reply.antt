-- ===== src/Trackers/Http/Reply.antt =====
-- src/trackers/http_tracker_communicator.cpp, `parse_http_response` and `parse_tracker_response`: the
-- peers that a well-formed reply names.
use bittorent_client.Common.{
  ℕ, ◌<◌, ◌≡◌, refl, ◌∙◌, Bytes, false, some, List, [], ◌∷◌, ◌++◌, ok, ◌==◌, length, All, arith,
  append-nil, append_assoc, u16_mod,
}
use bittorent_client.Common.Int.{pos}
use bittorent_client.Common.ByteStrings.{bytes_eq}
use bittorent_client.Common.Decimal.{to_string}
use bittorent_client.Torrent.Tracker.RoundTrip.{
  IsFreeOf, split_at-append, free_append, to_string-IsFreeOf, stoi-to_string,
}
use bittorent_client.Trackers.Http.{crlf, split_on, parse_http_response}

-- Behind characters that are no carriage return, the search goes on.
split_on-free :
    (pattern xs s : Bytes)
    → IsFreeOf 13 xs
    → split_on (13 ∷ pattern) (xs ++ s)
      ≡ (xs ++ (split_on (13 ∷ pattern) s).0, (split_on (13 ∷ pattern) s).1)
unfolding split_on bytes_eq
split_on-free pattern [] s h = refl
split_on-free pattern (x ∷ xs) s h = rw (h.0, split_on-free pattern xs s h.1) refl

-- the lines of the header, each with its end
abbrev pub block : List Bytes → Bytes
block [] = []
block (line ∷ lines) = line ++ (crlf ++ block lines)

-- A line of the header is not empty, and has no carriage return in it.
abbrev pub IsLine : Bytes → Type 0
IsLine line = (0 < length line) × IsFreeOf 13 line

between :
    (c : ℕ) (s : Bytes)
    → (c == 13) ≡ false
    → (split_on (crlf ++ crlf) (13 ∷ 10 ∷ c ∷ s)).1 ≡ (split_on (crlf ++ crlf) (c ∷ s)).1
unfolding split_on bytes_eq
between c s e = rw e refl

-- The body begins behind the empty line.
header_end :
    (xs : Bytes) (lines : List Bytes) (body : Bytes)
    → IsFreeOf 13 xs
    → All IsLine lines
    → (split_on (crlf ++ crlf) (xs ++ (crlf ++ (block lines ++ (crlf ++ body))))).1 ≡ some body
unfolding split_on bytes_eq
header_end xs [] body h k = rw (split_on-free (10 ∷ crlf) xs (crlf ++ (crlf ++ body)) h) refl
header_end xs ([] ∷ lines) body h k = absurd (omega (arith, k.0.0))
header_end xs ((c ∷ cs) ∷ lines) body h k =
    rw (split_on-free (10 ∷ crlf) xs (crlf ++ (block ((c ∷ cs) ∷ lines) ++ (crlf ++ body))) h) (
      between c ((cs ++ (crlf ++ block lines)) ++ (crlf ++ body)) k.0.1.0
      ∙ rw (append_assoc cs (crlf ++ block lines) (crlf ++ body))
          (header_end (c ∷ cs) lines body k.0.1 k.1))

first_line : (xs s : Bytes) → IsFreeOf 13 xs → (split_on crlf (xs ++ (crlf ++ s))).0 ≡ xs
unfolding split_on bytes_eq
first_line xs s h = rw (split_on-free (10 ∷ []) xs (crlf ++ s) h) (append-nil xs)

abbrev pub status_line : Bytes → ℕ → Bytes → Bytes
status_line version status reason = version ++ (b' ' ∷ (to_string status ++ (b' ' ∷ reason)))

-- A reply of HTTP/1.1, with its header and its body.
abbrev pub response : Bytes → ℕ → Bytes → List Bytes → Bytes → Bytes
response version status reason lines body =
    status_line version status reason ++ (crlf ++ (block lines ++ (crlf ++ body)))

status_line-IsFreeOf :
    (version : Bytes) (status : ℕ) (reason : Bytes)
    → IsFreeOf 13 version
    → IsFreeOf 13 reason
    → IsFreeOf 13 (status_line version status reason)
status_line-IsFreeOf version status reason v r =
    free_append 13 version (b' ' ∷ (to_string status ++ (b' ' ∷ reason))) v (
      refl,
      free_append 13 (to_string status) (b' ' ∷ reason) (to_string-IsFreeOf 13 status (omega arith))
          (refl, r),
    )

-- A well-formed reply is taken apart into its status and its body.
pub parse_http_response-response :
    (version : Bytes) (status : ℕ) (reason : Bytes) (lines : List Bytes) (body : Bytes)
    → IsFreeOf 13 version
    → IsFreeOf b' ' version
    → IsFreeOf 13 reason
    → All IsLine lines
    → status < u16_mod
    → parse_http_response (response version status reason lines body)
      ≡ ok (record { status_code = pos status; body = body })
unfolding parse_http_response
parse_http_response-response version status reason lines body v w r k l =
    let free = status_line-IsFreeOf version status reason v r in
    let cut = header_end (status_line version status reason) lines body free k in
    let first =
      first_line (status_line version status reason) (block lines ++ (crlf ++ body)) free in
    let after = split_at-append b' ' version (to_string status ++ (b' ' ∷ reason)) w in
    let code =
      split_at-append b' ' (to_string status) reason
        (to_string-IsFreeOf b' ' status (omega arith)) in
    simp (cut, first, after, code, stoi-to_string status l)
