-- ===== src/RoutingTable/Peers.antt =====
-- Registering and unregistering peers.
use lora_multihop.Prelude.{
  Text, text_eq, text_eq_iff, if◌then◌else◌, Bool, true, false, not, ◌&&◌, List, [], ◌∷◌, ◌++◌, ◌≡◌,
  refl, arith, any, keep, Option, none, some,
}
use lora_multihop.RoutingTable.{
  Peer, RoutingTable, check_entry_for_peer_exists, add_peer, delete_peer,
  check_peer_is_already_registered, find_address, get_address_of_peer,
}

abbrev pub is_some {ℓ} : {A : Type ℓ} → Option A → Bool
is_some none = false
is_some (some _) = true

abbrev pub or_else {ℓ} : {A : Type ℓ} → Option A → Option A → Option A
or_else none b = b
or_else (some a) b = some a

find_address-append :
    (p : Text) (xs ys : List Peer)
    → find_address p (xs ++ ys) ≡ or_else (find_address p xs) (find_address p ys)
unfolding find_address
find_address-append p [] ys = refl
find_address-append p (x ∷ xs) ys = ground (arith, find_address-append p xs ys)

registered-find :
    (p : Text) (xs : List Peer) → any (λ x. text_eq x.peer_id p) xs ≡ is_some (find_address p xs)
unfolding any find_address
registered-find p [] = refl
registered-find p (x ∷ xs) = ground (arith, registered-find p xs)

entry-find :
    (p a : Text) (xs : List Peer)
    → any (λ x. text_eq x.peer_id p && text_eq x.address a) xs ≡ true
    → is_some (find_address p xs) ≡ true
unfolding any find_address
entry-find p a [] h = cc
entry-find p a (x ∷ xs) h = ground (arith, entry-find p a xs)

-- A peer is registered exactly if an address is found for it.
pub registered-get_address :
    (p : Text) (t : RoutingTable)
    → check_peer_is_already_registered p t ≡ is_some (get_address_of_peer p t)
unfolding check_peer_is_already_registered get_address_of_peer
registered-get_address p t = registered-find p t.available_peers

-- Registering keeps the address of every registered peer, and gives a new peer its address.
pub get_address-add_peer :
    (p q a : Text) (t : RoutingTable)
    → get_address_of_peer q (add_peer p a t)
      ≡ or_else (get_address_of_peer q t) (if text_eq p q then some a else none)
unfolding get_address_of_peer add_peer check_entry_for_peer_exists
get_address-add_peer p q a t = ground (
  arith,
  find_address-append q t.available_peers (record { peer_id = p; address = a } ∷ []),
  entry-find p a t.available_peers,
  text_eq_iff p q,
)

kept :
    (p q a b : Text) (xs : List Peer)
    → any
        (λ x. text_eq x.peer_id q && text_eq x.address b)
        (keep (λ x. not (text_eq x.peer_id p) && not (text_eq x.address a)) xs)
      ≡ (any (λ x. text_eq x.peer_id q && text_eq x.address b) xs
          && (not (text_eq q p) && not (text_eq b a)))
unfolding any keep
kept p q a b [] = refl
kept p q a b (x ∷ xs) =
    ground (arith, kept p q a b xs, text_eq_iff x.peer_id q, text_eq_iff x.address b)

-- Unregistering a peer at a node keeps an entry exactly if it differs in the peer and in the node
-- too. So the other peers of the node go, and the peer's entries at other nodes.
pub exists-delete_peer :
    (p q a b : Text) (t : RoutingTable)
    → check_entry_for_peer_exists q b (delete_peer p a t)
      ≡ (check_entry_for_peer_exists q b t && (not (text_eq q p) && not (text_eq b a)))
unfolding check_entry_for_peer_exists delete_peer
exists-delete_peer p q a b t = kept p q a b t.available_peers
