-- ===== src/Trackers/Udp/Exchange.antt =====
-- src/trackers/udp_tracker_communicator.cpp: what the exchange accepts, and for how long it tries.
use bittorent_client.Common.{
  ℕ, zero, suc, ◌+◌, ◌-◌, ◌≤◌, ◌<◌, ◌≡◌, inl, inr, refl, ap, ◌∙◌, Bytes, true, false, not, Option,
  none, some, Result, ok, err, runtime_error, bad_access, ◌>>=◌, ◌>>◌, throw_if, ltb, ◌==◌,
  if◌then◌else◌, length, arith, Bool-cases,
}
use bittorent_client.ByteOrder.{read_be32, read_be64}
use bittorent_client.ByteOrder.Bounds.{read_be32_of_le, read_be64_of_le}
use bittorent_client.Trackers.Udp.{
  ConnectionResp, deserialize_connection_resp, on_datagram, attempts, read_connection, connect,
  max_retransmissions,
}

-- A datagram that is long enough to be read, and too short for the text of an error.
abbrev pub IsCutOff : Bytes → Type 0
IsCutOff bytes = (4 ≤ length bytes) × (length bytes < 8)

module _ {A : Type 0} (Q : Result A → Type 0) (thrown : Q (err runtime_error)) where
  on_datagram-cases :
      (wanted : ℕ) (read : Bytes → Result A → Result A) (rest : Result A) (o : Option Bytes)
      → ((bytes : Bytes) → o ≡ some bytes → IsCutOff bytes → Q (err bad_access))
      → ((bytes : Bytes) → wanted ≤ length bytes → Q (read bytes rest))
      → Q rest
      → Q (on_datagram wanted read rest o)
  unfolding on_datagram
  on_datagram-cases wanted read rest none b f r = r
  on_datagram-cases wanted read rest (some bytes) b f r = elim (Bool-cases (ltb (length bytes) 4)) [
    | inl short ↦ simp short r
    | inr long ↦
        let (action, e) = read_be32_of_le bytes 0 (ground (arith, long)) in
        simp (long, e)
          (elim (Bool-cases (action == 3)) [
            | inl failed ↦ simp failed (elim (Bool-cases (ltb (length bytes) 8)) [
              | inl c ↦ simp c (b bytes refl (ground (arith, long), ground (arith, c)))
              | inr c ↦ simp c thrown
            ])
            | inr fine ↦ simp fine (elim (Bool-cases (ltb (length bytes) wanted)) [
              | inl c ↦ simp c r
              | inr c ↦ simp c (f bytes (ground (arith, c)))
            ])
          ])
  ]

  attempts-cases :
      (wanted : ℕ) (read : Bytes → Result A → Result A) (replies : ℕ → Option Bytes) (n left : ℕ)
      → ((i : ℕ) (bytes : Bytes) → replies i ≡ some bytes → IsCutOff bytes → Q (err bad_access))
      → ((bytes : Bytes) (rest : Result A) → wanted ≤ length bytes → Q rest → Q (read bytes rest))
      → Q (attempts wanted read replies n left)
  unfolding attempts
  attempts-cases wanted read replies n zero b f = thrown
  attempts-cases wanted read replies n (suc left) b f =
      let rest = attempts wanted read replies (suc n) left in
      let q = attempts-cases wanted read replies (suc n) left b f in
      on_datagram-cases wanted read rest (replies n) (b n) (λ bytes l. f bytes rest l q) q

-- what an exchange that returned has returned
abbrev pub Returns : {A : Type 0} → (A → Type 0) → Result A → Type 0
Returns P (err e) = Unit {0}
Returns P (ok a) = P a

-- the response to the request
abbrev pub IsFor : ℕ → ConnectionResp → Type 0
IsFor transaction_id r = (r.transaction_id ≡ transaction_id) × (r.action ≡ 0)

read_connection-Returns :
    (transaction_id : ℕ) (bytes : Bytes) (rest : Result ConnectionResp)
    → Returns (IsFor transaction_id) rest
    → Returns (IsFor transaction_id) (read_connection transaction_id bytes rest)
read_connection-Returns transaction_id bytes rest h = go (deserialize_connection_resp bytes)
  where
    go :
        (o : Result ConnectionResp)
        → Returns (IsFor transaction_id) (
            o >>= λ r.
            if not (r.transaction_id == transaction_id)
            then rest
            else throw_if (not (r.action == 0)) runtime_error >> ok r)
    go (err e) = tt
    go (ok r) = elim (Bool-cases (r.transaction_id == transaction_id)) [
      | inr foreign ↦ simp foreign h
      | inl own ↦ simp own (elim (Bool-cases (r.action == 0)) [
        | inr other ↦ simp other tt
        | inl connects ↦ simp connects (ground (arith, own), ground (arith, connects))
      ])
    ]

-- A connection is only ever accepted by a response with the transaction of the request and the
-- action `connect`, whatever datagrams come back.
pub connect-Returns :
    (transaction_id : ℕ) (replies : ℕ → Option Bytes)
    → Returns (IsFor transaction_id) (connect transaction_id replies)
unfolding connect
connect-Returns transaction_id replies =
    attempts-cases (Returns (IsFor transaction_id)) tt 16 (read_connection transaction_id) replies 0
      (max_retransmissions + 1) (λ i bytes e c. tt)
      (λ bytes rest l. read_connection-Returns transaction_id bytes rest)

-- What an undefined read goes back to.
abbrev pub IsBlamed : {A : Type 0} → (ℕ → Option Bytes) → Result A → Type 0
IsBlamed replies r =
    r ≡ err bad_access → (i : ℕ) × (bytes : Bytes) × (replies i ≡ some bytes) × IsCutOff bytes

read_connection-IsBlamed :
    (replies : ℕ → Option Bytes) (transaction_id : ℕ) (bytes : Bytes) (rest : Result ConnectionResp)
    → 16 ≤ length bytes
    → IsBlamed replies rest
    → IsBlamed replies (read_connection transaction_id bytes rest)
unfolding deserialize_connection_resp
read_connection-IsBlamed replies transaction_id bytes rest l h =
    let (a, e0) = read_be32_of_le bytes 0 (omega (arith, l)) in
    let (t, e4) = read_be32_of_le bytes 4 (omega (arith, l)) in
    let (c, e8) = read_be64_of_le bytes 8 (omega (arith, l)) in
    let enough : ltb (length bytes) 16 ≡ false = ground (arith, l) in
    simp (enough, e0, e4, e8)
      (elim (Bool-cases (t == transaction_id)) [
        | inr foreign ↦ simp foreign h
        | inl own ↦ simp own (elim (Bool-cases (a == 0)) [
          | inr other ↦ simp other (λ e. cc)
          | inl connects ↦ simp connects (λ e. cc)
        ])
      ])

connect-IsBlamed :
    (transaction_id : ℕ) (replies : ℕ → Option Bytes)
    → IsBlamed replies (connect transaction_id replies)
unfolding connect
connect-IsBlamed transaction_id replies =
    attempts-cases (IsBlamed replies) (λ e. cc) 16 (read_connection transaction_id) replies 0
      (max_retransmissions + 1) (λ i bytes e c h. (i, bytes, e, c))
      (read_connection-IsBlamed replies transaction_id)

-- When the exchange reads outside of a datagram, the answer to some attempt had between four and
-- seven bytes; with no such answer every read is inside.
pub connect-bad_access :
    (transaction_id : ℕ) (replies : ℕ → Option Bytes)
    → connect transaction_id replies ≡ err bad_access
    → (i : ℕ) × (bytes : Bytes) × (replies i ≡ some bytes) × IsCutOff bytes
connect-bad_access transaction_id replies h = connect-IsBlamed transaction_id replies h

-- A reply that the loop passes over.
abbrev pub IsIgnored : ℕ → Option Bytes → Type 0
IsIgnored transaction_id o =
    (rest : Result ConnectionResp) → on_datagram 16 (read_connection transaction_id) rest o ≡ rest

skipped :
    (transaction_id : ℕ) (replies : ℕ → Option Bytes) (k n left m p : ℕ)
    → m ≡ k + left
    → p ≡ n + k
    → ((i : ℕ) → i < n + k → IsIgnored transaction_id (replies i))
    → attempts 16 (read_connection transaction_id) replies n m
      ≡ attempts 16 (read_connection transaction_id) replies p left
unfolding attempts
skipped transaction_id replies zero n left m p e f h =
    let same : m ≡ left = omega arith in
    let there : n ≡ p = omega arith in
    ap (attempts 16 (read_connection transaction_id) replies n) same
    ∙ ap (λ q. attempts 16 (read_connection transaction_id) replies q left) there
skipped transaction_id replies (suc k) n left zero p e f h = absurd (omega arith)
skipped transaction_id replies (suc k) n left (suc m) p e f h =
    h n (omega arith) (attempts 16 (read_connection transaction_id) replies (suc n) m)
    ∙ skipped transaction_id replies k (suc n) left m p (omega arith) (omega arith)
        (λ i l. h i (omega arith))

own_id : (t : ℕ) → (t == t) ≡ true
own_id t = ground arith

-- A datagram with a response to the request.
abbrev pub IsResponse : ℕ → ℕ → Bytes → Type 0
IsResponse transaction_id connection_id bytes =
    (16 ≤ length bytes)
    × (read_be32 bytes 0 ≡ ok 0)
    × (read_be32 bytes 4 ≡ ok transaction_id)
    × (read_be64 bytes 8 ≡ ok connection_id)

answers :
    (transaction_id connection_id : ℕ) (bytes : Bytes) (rest : Result ConnectionResp)
    → IsResponse transaction_id connection_id bytes
    → on_datagram 16 (read_connection transaction_id) rest (some bytes)
      ≡ ok (record { action = 0; transaction_id = transaction_id; connection_id = connection_id })
unfolding deserialize_connection_resp on_datagram
answers transaction_id connection_id bytes rest (l, e0, e4, e8) =
    let short : ltb (length bytes) 16 ≡ false = ground (arith, l) in
    let shorter : ltb (length bytes) 4 ≡ false = ground (arith, l) in
    simp (shorter, short, e0, e4, e8, own_id transaction_id) refl

-- The exchange perseveres: when one of the nine attempts is answered by a response to the request
-- and the replies to the attempts before it are such as the loop passes over, the connection is
-- made, with the id of that response.
pub connect-IsResponse :
    (transaction_id connection_id n : ℕ) (bytes : Bytes) (replies : ℕ → Option Bytes)
    → n ≤ max_retransmissions
    → ((i : ℕ) → i < n → IsIgnored transaction_id (replies i))
    → replies n ≡ some bytes
    → IsResponse transaction_id connection_id bytes
    → connect transaction_id replies
      ≡ ok (record { action = 0; transaction_id = transaction_id; connection_id = connection_id })
unfolding connect attempts
connect-IsResponse transaction_id connection_id n bytes replies l h e r =
    let read = read_connection transaction_id in
    let rest = attempts 16 read replies (suc n) (max_retransmissions - n) in
    skipped transaction_id replies n 0 (suc (max_retransmissions - n)) 9 n (omega arith)
      (omega arith) (λ i k. h i (omega arith))
    ∙ ap (on_datagram 16 read rest) e
    ∙ answers transaction_id connection_id bytes rest r
