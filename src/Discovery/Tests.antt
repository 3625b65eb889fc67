-- ===== src/Discovery/Tests.antt =====
-- Two peers, and the theorems at concrete inputs.
use subspace_transceiver.Prelude.{
  ℕ, ◌≤◌, Bool, true, false, List, [], ◌∷◌, Elem, Option, none, some, ◌≡◌, ◌≢◌, refl, ap, inl, inr,
  arith,
}
use subspace_transceiver.Prelude.Dict
use subspace_transceiver.Prelude.Numerals.{print, digits}
use subspace_transceiver.Prelude.Text.{Text, codes, text_eq}
use subspace_transceiver.Samples.{first}
use subspace_transceiver.Schema.{MemoryChunk, HashcashStamp}
use subspace_transceiver.Pow.{
  StampCacheEntry, has_leading_zero_bits, zero_nibbles, top_bits_clear, nibble_of,
  current_challenge, previous_challenge, challenge_at, mine_loop, mine_stamp, verify_stamp, cached,
  put_stamp, get_or_mine,
}
use subspace_transceiver.Pow.Cache.{IsValid}
use subspace_transceiver.Discovery.{
  DiscoveryManifest, DiscoveryManagerOptions, DiscoveryManager, new_manager, tally, unstamped,
  entry_of, admits, process_manifest_local, process_manifest, handle_gossip_message, receive,
  build_manifest, start, stop, trigger_rebroadcast, peer_has_topic,
}
use subspace_transceiver.Discovery.Stamped.{receive-stamped}
use subspace_transceiver.Routes.Peers.{get_discovery_peers, topic_check, first_known, TopicCheck}
use subspace_transceiver.Routes.Reachable.{IsListedPeer, get_discovery_peers-receive}

messages : Unit {0}
unfolding has_leading_zero_bits zero_nibbles top_bits_clear nibble_of current_challenge
    previous_challenge challenge_at mine_loop mine_stamp verify_stamp cached put_stamp get_or_mine
    print digits Dict.get Dict.set text_eq build_manifest unstamped admits process_manifest_local
    process_manifest handle_gossip_message receive new_manager entry_of
messages = tt

-- A digest that has sixteen leading zero bits whatever the text is.
abbrev easy : Text → Text
easy s = codes "0000"

abbrev ann : Text
ann = codes "ann"

abbrev bob : Text
bob = codes "bob"

abbrev options : Text → Bool → DiscoveryManagerOptions
options peer require_pow = record {
  local_peer_id = peer;
  agent_peer_id = none;
  display_name = none;
  subscribed_topics = none;
  subscribed_peers = none;
  pow_bits_for_requests = none;
  pow_window_ms = none;
  require_pow = require_pow;
}

abbrev stores : List (Option (List MemoryChunk))
stores = none ∷ some (first ∷ []) ∷ []

unfoldable char : ℕ → Text → ℕ
char n [] = n
char n (c ∷ s) = c

bob-ann : ann ≢ bob
unfolding char
bob-ann e = absurd (omega (arith, ap (char 0) e))

abbrev plain : DiscoveryManifest
plain = unstamped (options ann false) 7 (tally stores)

built :
    build_manifest easy (options ann false) 0 7 7 stores (new_manager none)
    ≡ some (new_manager none, plain)
unfolding messages
built = refl

admitted : admits easy (options bob false) 9 plain ≡ true
unfolding messages
admitted = refl

-- Bob searches for "EX" after the manifest of Ann has arrived, and Ann sends the chunk "text".
abbrev informed : DiscoveryManager
informed = handle_gossip_message easy (options bob false) 9 (some plain) (new_manager none)

-- The stamp that the digest gives at once.
abbrev stamp : HashcashStamp
stamp = record { bits = 16; challenge = codes "0000"; nonce = codes "0"; hash = codes "0000" }

abbrev stamped : DiscoveryManifest
stamped = record (unstamped (options ann false) 7 (tally [])) { pow = some stamp }

arrived :
    Dict.get ann
      (receive easy (options bob true) ((9, some stamped) ∷ []) (new_manager none)).peer_index
    ≡ some (entry_of stamped 9)
unfolding messages
arrived = refl

empty_index : Dict.get ann (new_manager none).peer_index ≡ none
unfolding messages
empty_index = refl

receive-stamped_example :
    (now : ℕ) × (m : DiscoveryManifest) × (s : HashcashStamp) × Elem
      {A = ℕ × Option DiscoveryManifest}
      (now, some m)
      ((9, some stamped) ∷ [])
    × (entry_of m now ≡ entry_of stamped 9)
    × (m.pow ≡ some s)
    × (verify_stamp easy s ann ann 16 3600000 now ≡ true)
receive-stamped_example =
    receive-stamped easy (options bob true) ((9, some stamped) ∷ []) (new_manager none) ann
      (entry_of stamped 9) refl bob-ann empty_index arrived

empty-IsValid : IsValid easy ann []
unfolding messages
empty-IsValid scope bits window_ms entry h later when = cc

abbrev caching : Option (List (Text × StampCacheEntry)) → DiscoveryManager
caching cache = record (new_manager none) { stamp_cache = cache }

build_stamped :
    build_manifest easy (options ann false) 1 7 8 [] (caching (some []))
    ≡ some (caching (some (put_stamp [] ann 16 3600000 stamp 1 8)), stamped)
unfolding messages
build_stamped = refl

not_earlier :
    (t : ℕ) (x : Option DiscoveryManifest)
    → Elem {A = ℕ × Option DiscoveryManifest} (t, x) ((20, none) ∷ [])
    → 9 ≤ t
not_earlier t x (inl e) = omega (arith, ap (λ p. p.0) e)
not_earlier t x (inr e) = absurd e

get_discovery_peers-receive_example : IsListedPeer ann (
    get_discovery_peers 300008
      (new_manager none
        ∷ receive easy
            (options bob false)
            ((20, none) ∷ [])
            (handle_gossip_message easy (options bob false) 9 (some plain) (new_manager none))
        ∷ [])
      (some (new_manager none)))
unfolding unstamped
get_discovery_peers-receive_example =
    get_discovery_peers-receive easy (options bob false) plain 9 300008 ((20, none) ∷ [])
      (new_manager none)
      (receive easy (options bob false) ((20, none) ∷ [])
        (handle_gossip_message easy (options bob false) 9 (some plain) (new_manager none)))
      (new_manager none
        ∷ receive easy (options bob false) ((20, none) ∷ [])
            (handle_gossip_message easy (options bob false) 9 (some plain) (new_manager none))
        ∷ [])
      (some (new_manager none)) bob-ann admitted not_earlier (omega arith) refl (inr (inl refl))

-- A stop and a start while a rebroadcast is due leave two broadcasts and no timer of the rebroadcast.
restarted : (start easy (stop (trigger_rebroadcast (start easy (new_manager none))))).broadcasts ≡ 2
unfolding start stop trigger_rebroadcast new_manager
restarted = refl

-- The first session that knows the peer decides; a session that does not is passed over.
topic_checked :
    topic_check ann (codes "Async") (new_manager none ∷ informed ∷ [])
    ≡ TopicCheck.checked (peer_has_topic ann (codes "Async") informed)
unfolding topic_check first_known peer_has_topic messages
topic_checked = refl
