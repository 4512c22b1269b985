-- ===== src/Dht/RoutingTable.antt =====
-- inc/dht/routing_table.h, src/dht/routing_table.cpp: the k-buckets. A bucket is the list of its
-- entries, which are never more than `K`, and a time is a number of the clock's ticks. `now` is
-- `steady_clock::now()`. The table's mutex makes each method one step.
pub mod Buckets
pub mod Entries
pub mod Invariant
pub mod Closest
pub mod Replacement
use bittorent_client.Common.{
  ℕ, zero, suc, ◌+◌, ◌-◌, ◌*◌, ◌^◌, Bytes, bit_and, Bool, true, false, not, ◌&&◌, ◌||◌, Option,
  none, some, List, [], ◌∷◌, ◌++◌, ltb, leb, ◌==◌, if◌then◌else◌, length, get_or, set, take,
  replicate,
}
use mathlib.Core.Option
use bittorent_client.Common.ByteStrings.{bytes_lt, bytes_eq}
use bittorent_client.Common.Sort.{sort}
use bittorent_client.PeerAddress.{PeerAddress}
use bittorent_client.Dht.NodeId.{NodeId, xor, is_zero}

abbrev pub num_buckets : ℕ
num_buckets = 160

abbrev pub k_nodes : ℕ
k_nodes = 8

pub record RoutingEntry : Type 0 where
  pub id : NodeId
  pub pa : PeerAddress
  pub last_seen : ℕ

-- A minute in ticks; the clock counts nanoseconds.
abbrev pub minute : ℕ
minute = 60 * 10 ^ 9

abbrev pub node_good_timeout : ℕ
node_good_timeout = 15 * minute

-- `now - last_seen < NODE_GOOD_TIMEOUT` of signed durations
abbrev pub is_good : ℕ → RoutingEntry → Bool
is_good now e = ltb now (e.last_seen + node_good_timeout)

pub record RoutingTable : Type 0 where
  pub self_id : NodeId
  pub buckets : List (List RoutingEntry)
  pub peers_received_per_bucket : List ℕ

abbrev pub new : NodeId → RoutingTable
new self_id = record {
  self_id = self_id;
  buckets = replicate num_buckets [];
  peers_received_per_bucket = replicate num_buckets 0;
}

abbrev pub bucket_at : RoutingTable → ℕ → List RoutingEntry
bucket_at t b = get_or t.buckets b []

-- `for (int bit = 7; bit >= 0; --bit)`: the highest bit that is set
unfoldable pub top_bit : ℕ → ℕ → ℕ
top_bit zero b = 0
top_bit (suc bit) b =
    let rest = top_bit bit b in if not (bit_and b (2 ^ bit) == 0) then bit else rest

-- the loop over the bytes of the distance, from byte `byte_idx` on
unfoldable pub bucket_from : ℕ → Bytes → ℕ
unfolding top_bit
bucket_from byte_idx [] = 0
bucket_from byte_idx (b ∷ dist) =
    let rest = bucket_from (byte_idx + 1) dist in
    if b == 0 then rest else (num_buckets - 1) - (byte_idx * 8 + (7 - top_bit 8 b))

unfoldable pub bucket_index : NodeId → NodeId → ℕ
unfolding bucket_from xor is_zero
bucket_index self_id id =
    let dist = xor self_id id in if is_zero dist then num_buckets else bucket_from 0 dist

-- `find_in_bucket`: the index of the entry of a node
unfoldable pub find_in_bucket : List RoutingEntry → NodeId → Option ℕ
find_in_bucket [] id = none
find_in_bucket (e ∷ es) id =
    let rest = find_in_bucket es id in if bytes_eq e.id id then some 0 else Option.map suc rest

-- The entries behind index `idx` move to the front by one.
unfoldable pub close_gap : List RoutingEntry → ℕ → List RoutingEntry
close_gap [] idx = []
close_gap (e ∷ es) zero = es
close_gap (e ∷ es) (suc idx) = e ∷ close_gap es idx

unfoldable pub touch_bucket_entry : List RoutingEntry → ℕ → RoutingEntry → List RoutingEntry
unfolding close_gap
touch_bucket_entry es idx entry =
    if leb (length es) idx
    then es
    else if ltb (idx + 1) (length es)
    then close_gap (set es idx entry) idx ++ (entry ∷ [])
    else set es idx entry

-- The loop for the entry that was seen least recently: from index `i` on, with the one found so far.
unfoldable pub oldest_from : ℕ → ℕ → ℕ → List RoutingEntry → ℕ
oldest_from i replace_idx oldest [] = replace_idx
oldest_from i replace_idx oldest (e ∷ es) =
    if ltb e.last_seen oldest
    then oldest_from (suc i) i e.last_seen es
    else oldest_from (suc i) replace_idx oldest es

unfoldable pub replace_index : List RoutingEntry → ℕ
unfolding oldest_from
replace_index [] = 0
replace_index (e ∷ es) = oldest_from 1 0 e.last_seen es

-- a full bucket: the oldest entry is replaced if it is not good
unfoldable pub add_full : ℕ → List RoutingEntry → RoutingEntry → List RoutingEntry
unfolding replace_index
add_full now es entry =
    let i = replace_index es in if not (is_good now (get_or es i entry)) then set es i entry else es

-- by the index of the entry that the node has
abbrev pub add_found : ℕ → List RoutingEntry → RoutingEntry → Option ℕ → List RoutingEntry
add_found now es entry (some idx) = touch_bucket_entry (set es idx entry) idx entry
add_found now es entry none =
    if ltb (length es) k_nodes then es ++ (entry ∷ []) else add_full now es entry

unfoldable pub add_to_bucket : ℕ → List RoutingEntry → RoutingEntry → List RoutingEntry
unfolding find_in_bucket
add_to_bucket now es entry = add_found now es entry (find_in_bucket es entry.id)

unfoldable pub add : ℕ → Bool → RoutingEntry → RoutingTable → RoutingTable
unfolding bucket_index add_to_bucket
add now count_as_received entry t =
    let bucket = bucket_index t.self_id entry.id in
    let received = t.peers_received_per_bucket in
    if bytes_eq entry.id t.self_id || is_zero entry.id
    then t
    else if leb num_buckets bucket
    then t
    else record t {
      buckets = set t.buckets bucket (add_to_bucket now (bucket_at t bucket) entry);
      peers_received_per_bucket =
          if count_as_received
          then set received bucket (get_or received bucket 0 + 1)
          else received;
    }

abbrev pub remove_found : List RoutingEntry → Option ℕ → List RoutingEntry
remove_found es none = es
remove_found es (some i) = close_gap es i

unfoldable pub remove_from_bucket : List RoutingEntry → NodeId → List RoutingEntry
unfolding find_in_bucket
remove_from_bucket es id = remove_found es (find_in_bucket es id)

unfoldable pub remove : NodeId → RoutingTable → RoutingTable
unfolding bucket_index remove_from_bucket
remove id t =
    let bucket = bucket_index t.self_id id in
    if leb num_buckets bucket
    then t
    else record t { buckets = set t.buckets bucket (remove_from_bucket (bucket_at t bucket) id) }

unfoldable pub total : List (List RoutingEntry) → ℕ
total [] = 0
total (es ∷ buckets) = length es + total buckets

abbrev pub size : RoutingTable → ℕ
size t = total t.buckets

unfoldable pub all_unlocked : List (List RoutingEntry) → List RoutingEntry
all_unlocked [] = []
all_unlocked (es ∷ buckets) = es ++ all_unlocked buckets

-- nearer to the target
abbrev pub closer : NodeId → RoutingEntry → RoutingEntry → Bool
closer target a b = bytes_lt (xor target a.id) (xor target b.id)

unfoldable pub closest : NodeId → ℕ → RoutingTable → List RoutingEntry
unfolding all_unlocked
closest target k t = take k (sort (closer target) (all_unlocked t.buckets))

unfoldable pub is_stale : ℕ → ℕ → List RoutingEntry → Bool
is_stale now max_age [] = true
is_stale now max_age (e ∷ es) = not (ltb now (e.last_seen + max_age)) && is_stale now max_age es

unfoldable pub stale_from : ℕ → ℕ → ℕ → List (List RoutingEntry) → List ℕ
unfolding is_stale
stale_from now max_age b [] = []
stale_from now max_age b (es ∷ buckets) =
    let rest = stale_from now max_age (suc b) buckets in
    if is_stale now max_age es then b ∷ rest else rest

abbrev pub buckets_needing_refresh : ℕ → ℕ → RoutingTable → List ℕ
buckets_needing_refresh now max_age t = stale_from now max_age 0 t.buckets
