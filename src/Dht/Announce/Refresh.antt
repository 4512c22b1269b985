-- ===== src/Dht/Announce/Refresh.antt =====
-- src/dht/announce_coordinator.cpp: which torrents are due, and what marks them as done.
use bittorent_client.Common.{
  ℕ, ◌+◌, ◌<◌, ◌≡◌, ◌≢◌, refl, ap, ◌∙◌, Bool, false, Option, none, some, List, [], ◌∷◌,
  if◌then◌else◌, arith, ◌||◌,
}
use mathlib.Core.Path.{sym}
use mathlib.Core.Logic.{ite}
use mathlib.Core.Option
use mathlib.Core.List.{lookup}
use bittorent_client.Common.ByteStrings.{bytes_dec, bytes_eq, bytes_eq-eq, bytes_eq_refl}
use bittorent_client.InfoHash.{InfoHash}
use bittorent_client.LruCache.Lookup.{IsUnique}
use bittorent_client.Dht.Announce.{
  AnnounceCoordinator, RegisteredTorrent, keys_where, is_due, refreshed, announce_refresh_interval,
  update, mark_refreshed, torrents_needing_refresh,
}

-- a hash in a list
abbrev pub has_hash : InfoHash → List InfoHash → Bool
has_hash k [] = false
has_hash k (h ∷ hs) = bytes_eq k h || has_hash k hs

-- whether a map holds a torrent that passes a test under a key
abbrev holds : (RegisteredTorrent → Bool) → Option RegisteredTorrent → Bool
holds p none = false
holds p (some t) = p t

keys_where-absent :
    (p : RegisteredTorrent → Bool) (k : InfoHash) (l : List (InfoHash × RegisteredTorrent))
    → lookup bytes_dec k l ≡ none
    → has_hash k (keys_where p l) ≡ false
unfolding lookup keys_where
keys_where-absent p k [] h = refl
keys_where-absent p k (e ∷ l) h =
    elim (bytes_dec k e.0)
        as (λ d.
          ite d (some (e.1)) (lookup bytes_dec k l) ≡ none
          → has_hash k (if p (e.1) then e.0 ∷ keys_where p l else keys_where p l) ≡ false) [
            | yes same ↦ λ q. cc q
            | no differs ↦
                λ q. ground (arith, keys_where-absent p k l q, differs, bytes_eq-eq k e.0)
          ]
      h

keys_where_lem :
    (p : RegisteredTorrent → Bool) (k : InfoHash) (l : List (InfoHash × RegisteredTorrent))
    → IsUnique bytes_dec l
    → has_hash k (keys_where p l) ≡ holds p (lookup bytes_dec k l)
unfolding lookup keys_where
keys_where_lem p k [] u = refl
keys_where_lem p k (e ∷ l) u =
    elim (bytes_dec k e.0)
      as (λ d.
        has_hash k (if p (e.1) then e.0 ∷ keys_where p l else keys_where p l)
        ≡ holds p (ite d (some (e.1)) (lookup bytes_dec k l))) [
          | yes same ↦
              let absent = keys_where-absent p e.0 l u.0 in
              rw same (ground (arith, absent, bytes_eq_refl e.0))
          | no differs ↦ ground (arith, keys_where_lem p k l u.1, differs, bytes_eq-eq k e.0)
        ]

lookup-update :
    (k : InfoHash) (f : RegisteredTorrent → RegisteredTorrent)
    (l : List (InfoHash × RegisteredTorrent))
    → lookup bytes_dec k (update k f l) ≡ Option.map f (lookup bytes_dec k l)
unfolding lookup update
lookup-update k f [] = refl
lookup-update k f (e ∷ l) = ground (arith, lookup-update k f l)

lookup-update_ne :
    (k q : InfoHash) (f : RegisteredTorrent → RegisteredTorrent)
    (l : List (InfoHash × RegisteredTorrent))
    → q ≢ k
    → lookup bytes_dec q (update k f l) ≡ lookup bytes_dec q l
unfolding lookup update
lookup-update_ne k q f [] n = refl
lookup-update_ne k q f (e ∷ l) n = ground (arith, n, lookup-update_ne k q f l n)

none-update :
    (k q : InfoHash) (f : RegisteredTorrent → RegisteredTorrent)
    (l : List (InfoHash × RegisteredTorrent))
    → lookup bytes_dec q l ≡ none
    → lookup bytes_dec q (update k f l) ≡ none
unfolding lookup update
none-update k q f [] h = refl
none-update k q f (e ∷ l) h = ground (arith, h, none-update k q f l)

update-IsUnique :
    (k : InfoHash) (f : RegisteredTorrent → RegisteredTorrent)
    (l : List (InfoHash × RegisteredTorrent))
    → IsUnique bytes_dec l
    → IsUnique bytes_dec (update k f l)
unfolding update
update-IsUnique k f [] u = tt
update-IsUnique k f (e ∷ l) u =
    elim (bytes_dec k e.0)
      as (λ d.
        IsUnique bytes_dec (elim d [ yes _ ↦ (e.0, f (e.1)) ∷ l | no _ ↦ e ∷ update k f l ])) [
          | yes same ↦ u
          | no differs ↦ (none-update k e.0 f l u.0, update-IsUnique k f l u.1)
        ]

-- A torrent marked as refreshed is not due again before the interval has passed, and whether any
-- other torrent is due stays as it was.
pub mark_refreshed_lem :
    (k q : InfoHash) (now later : ℕ) (c : AnnounceCoordinator)
    → IsUnique bytes_dec c.registered
    → later < now + announce_refresh_interval
    → (has_hash k (torrents_needing_refresh later (mark_refreshed k now c)) ≡ false)
      × (q ≢ k
          → has_hash q (torrents_needing_refresh later (mark_refreshed k now c))
            ≡ has_hash q (torrents_needing_refresh later c))
unfolding torrents_needing_refresh mark_refreshed
mark_refreshed_lem k q now later c u l =
    let f = refreshed now in
    let u' = update-IsUnique k f c.registered u in
    (
      keys_where_lem (is_due later) k (update k f c.registered) u'
          ∙ ap (holds (is_due later)) (lookup-update k f c.registered)
          ∙ never (lookup bytes_dec k c.registered),
      λ n.
          keys_where_lem (is_due later) q (update k f c.registered) u'
          ∙ ap (holds (is_due later)) (lookup-update_ne k q f c.registered n)
          ∙ sym (keys_where_lem (is_due later) q c.registered u),
    )
  where
    never :
        (o : Option RegisteredTorrent) → holds (is_due later) (Option.map (refreshed now) o) ≡ false
    never none = refl
    never (some t) = ground (arith, l)
