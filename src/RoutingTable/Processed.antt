-- ===== src/RoutingTable/Processed.antt =====
-- The lists of what has been processed, and how long an entry counts.
use lora_multihop.Prelude.{
  ℕ, ◌-◌, ◌≤◌, Text, text_eq, ltb, Bool, false, ◌&&◌, ◌||◌, List, [], ◌∷◌, ◌++◌, ◌≡◌, refl, arith,
  any, keep, any-append, any-keep, ◌∙◌,
}
use lora_multihop.Variables.{processed_route_request_timeout}
use lora_multihop.RoutingTable.{
  Seen, RoutingTable, clean_already_processed_requests_list, check_message_already_processed,
  add_address_to_processed_list, ConnectRequest, add_connect_request,
  check_connect_request_entry_already_exists,
}

abbrev fresh : ℕ → Seen → Bool
fresh now s = ltb (now - s.time) processed_route_request_timeout

-- An entry that is found is fresh and has the address.
check-eq :
    (now : ℕ) (a : Text) (l : List Seen)
    → check_message_already_processed now a l ≡ any (λ s. fresh now s && text_eq s.address a) l
unfolding check_message_already_processed clean_already_processed_requests_list
check-eq now a l = any-keep (λ s. text_eq s.address a) (fresh now) l

-- Cleaning drops nothing that counts later: entries only grow older.
clean-later :
    (now later : ℕ) (b : Text) (l : List Seen)
    → now ≤ later
    → any (λ s. fresh later s && text_eq s.address b) (keep (fresh now) l)
      ≡ any (λ s. fresh later s && text_eq s.address b) l
unfolding any keep
clean-later now later b [] le = refl
clean-later now later b (s ∷ l) le = ground (arith, clean-later now later b l)

check-clean :
    (now later : ℕ) (b : Text) (l : List Seen)
    → now ≤ later
    → check_message_already_processed later b (clean_already_processed_requests_list now l)
      ≡ check_message_already_processed later b l
unfolding clean_already_processed_requests_list
check-clean now later b l le =
    rw (check-eq later b (keep (fresh now) l), check-eq later b l) (clean-later now later b l le)

check-append :
    (later now : ℕ) (a b : Text) (l : List Seen)
    → check_message_already_processed later b (l ++ record { address = a; time = now } ∷ []) ≡ (
        check_message_already_processed later b l
        || (ltb (later - now) processed_route_request_timeout && text_eq a b))
check-append later now a b l =
    rw (check-eq later b (l ++ record { address = a; time = now } ∷ []), check-eq later b l)
      (any-append (λ s. fresh later s && text_eq s.address b) l _ ∙ unfold any in ground arith)

-- A request that was not processed before is entered: it is found from then on exactly until the
-- timeout has passed, and what is found of other requests does not change.
pub check-add :
    (now later : ℕ) (a b : Text) (l : List Seen)
    → now ≤ later
    → check_message_already_processed now a l ≡ false
    → check_message_already_processed later b (add_address_to_processed_list now a l) ≡ (
        check_message_already_processed later b l
        || (ltb (later - now) processed_route_request_timeout && text_eq a b))
unfolding add_address_to_processed_list
check-add now later a b l le new = ground (
  arith,
  check-clean now now a l,
  check-clean now later b l le,
  check-append later now a b (clean_already_processed_requests_list now l),
)

-- A connect request that is entered is found exactly until 45 seconds have passed, and what is found
-- of other requests does not change.
pub connect_request-add :
    (now later : ℕ) (s d s' d' : Text) (t : RoutingTable)
    → check_connect_request_entry_already_exists later s' d' (add_connect_request now s d t) ≡ (
        check_connect_request_entry_already_exists later s' d' t
        || (ltb (later - now) 45000000 && (text_eq s s' && text_eq d d')))
unfolding check_connect_request_entry_already_exists add_connect_request
connect_request-add now later s d s' d' t =
    any-keep (λ c. text_eq c.source_peer_id s' && text_eq c.target_peer_id d')
      (λ c. ltb (later - c.time) 45000000) _
    ∙ any-append
        (λ c.
          ltb (later - c.time) 45000000
          && (text_eq c.source_peer_id s' && text_eq c.target_peer_id d'))
        t.processed_connect_request _
    ∙ rw
        (any-keep
          (λ (c : ConnectRequest). text_eq c.source_peer_id s' && text_eq c.target_peer_id d')
          (λ c. ltb (later - c.time) 45000000) t.processed_connect_request)
        (unfold any in ground arith)
