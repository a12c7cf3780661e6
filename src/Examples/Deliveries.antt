-- ===== src/Examples/Deliveries.antt =====
-- A transport takes the two records of a log from the outbox.
use community_stack.Ports.{LocalCommit}
use community_stack.Store.Commit.{commit_local}
use community_stack.Common.{
  All, take, ◌↔◌, ℕ, String, ◌≡◌, ◌≢◌, ◌≤◌, ◌<◌, refl, List, [], ◌∷◌, none, some, length, min, In,
  inl, inr, arith, suc,
}
use community_stack.Domain.Replication.{OutboxItem, AckOutbox, applied}
use community_stack.Failure.{ok}
use community_stack.Store.Tables.{Database}
use community_stack.Store.Outbox.{
  sorted_candidates, size, of_delivery, validate_id, claim_outbox, ack_outbox,
}
use community_stack.Store.Outbox.Budget.{total, claim_within_budget, claim_nothing_iff}
use community_stack.Store.Outbox.Steps.{claimed, Steps, done, next}
use community_stack.Store.Outbox.Exclusion.{lease_excludes}
use community_stack.Store.Outbox.Settled.{IsKeyed, Steps-IsKeyed, ack_is_final}
use community_stack.Store.Outbox.Holder.{IsDistinct, holder_can_acknowledge}
use community_stack.Store.Outbox.Fencing.{attempts_increase}
use community_stack.Examples.Data.{second, one, from_ok, two}

abbrev claim : ℕ → String → ℕ → ℕ → Database → List OutboxItem × Database
claim now transport limit max_bytes a =
    from_ok ([], a) (claim_outbox now transport limit max_bytes a)

abbrev handed : ℕ → ℕ → OutboxItem
handed hash attempt = record {
  operation_hash = hash;
  lease_attempt = attempt;
  header = 1 ∷ 2 ∷ [];
  body = 3 ∷ [];
  priority = 40;
}

-- The first record is claimed, and another transport claims both.
abbrev one_out : Database
one_out = (claim 3000 "rns" 1 100 two).1

abbrev other_out : Database
other_out = (claim 3500 "usb" 9 100 one_out).1

one_done : claim_outbox 3000 "rns" 1 100 two ≡ ok (handed 11 1 ∷ [], one_out)
unfolding claim_outbox ack_outbox validate_id community_stack.Common.all_chars
    community_stack.Store.Outbox.candidates community_stack.Common.filter_map
    community_stack.Store.Outbox.join_row community_stack.Store.Outbox.is_claimable
    community_stack.Store.Outbox.is_open of_delivery community_stack.Store.Outbox.candidate_before
    community_stack.Store.Outbox.lease_row community_stack.Store.Outbox.lease_attempt
    community_stack.Store.Outbox.size community_stack.Store.Outbox.claim_each
    community_stack.Store.Outbox.is_leased community_stack.Common.update
    community_stack.Common.Sort.sort community_stack.Common.Sort.insert
    community_stack.Store.Commit.commit_local community_stack.Store.Commit.admissible
    community_stack.Store.Read.update_count community_stack.Store.Read.log_head
    community_stack.Store.Commit.follows community_stack.Store.Commit.same_operation
    community_stack.Store.Commit.append_record community_stack.Store.Commit.apply_projections
    community_stack.Store.Commit.store_response community_stack.Store.Read.same_document
    community_stack.Common.any community_stack.Common.count community_stack.Common.find
    community_stack.Store.Read.of_key community_stack.Store.Commit.set_head
    community_stack.Store.Commit.next_outbox_id community_stack.Store.Commit.next_change_id
    community_stack.Store.Commit.priority_for community_stack.Store.Read.of_log
    community_stack.Store.Read.of_document
one_done = refl

other_done : claim_outbox 3500 "usb" 9 100 one_out ≡ ok (handed 11 1 ∷ handed 12 1 ∷ [], other_out)
unfolding claim_outbox ack_outbox validate_id community_stack.Common.all_chars
    community_stack.Store.Outbox.candidates community_stack.Common.filter_map
    community_stack.Store.Outbox.join_row community_stack.Store.Outbox.is_claimable
    community_stack.Store.Outbox.is_open of_delivery community_stack.Store.Outbox.candidate_before
    community_stack.Store.Outbox.lease_row community_stack.Store.Outbox.lease_attempt
    community_stack.Store.Outbox.size community_stack.Store.Outbox.claim_each
    community_stack.Store.Outbox.is_leased community_stack.Common.update
    community_stack.Common.Sort.sort community_stack.Common.Sort.insert
    community_stack.Store.Commit.commit_local community_stack.Store.Commit.admissible
    community_stack.Store.Read.update_count community_stack.Store.Read.log_head
    community_stack.Store.Commit.follows community_stack.Store.Commit.same_operation
    community_stack.Store.Commit.append_record community_stack.Store.Commit.apply_projections
    community_stack.Store.Commit.store_response community_stack.Store.Read.same_document
    community_stack.Common.any community_stack.Common.count community_stack.Common.find
    community_stack.Store.Read.of_key community_stack.Store.Commit.set_head
    community_stack.Store.Commit.next_outbox_id community_stack.Store.Commit.next_change_id
    community_stack.Store.Commit.priority_for community_stack.Store.Read.of_log
    community_stack.Store.Read.of_document
other_done = refl

between : Steps 3000 one_out other_out
between =
    next (claimed 3500 "usb" 9 100 (handed 11 1 ∷ handed 12 1 ∷ []) (omega arith) other_done) done

early_done :
    claim_outbox 63000 "rns" 9 100 other_out
    ≡ ok (handed 12 1 ∷ [], (claim 63000 "rns" 9 100 other_out).1)
unfolding claim_outbox ack_outbox validate_id community_stack.Common.all_chars
    community_stack.Store.Outbox.candidates community_stack.Common.filter_map
    community_stack.Store.Outbox.join_row community_stack.Store.Outbox.is_claimable
    community_stack.Store.Outbox.is_open of_delivery community_stack.Store.Outbox.candidate_before
    community_stack.Store.Outbox.lease_row community_stack.Store.Outbox.lease_attempt
    community_stack.Store.Outbox.size community_stack.Store.Outbox.claim_each
    community_stack.Store.Outbox.is_leased community_stack.Common.update
    community_stack.Common.Sort.sort community_stack.Common.Sort.insert
    community_stack.Store.Commit.commit_local community_stack.Store.Commit.admissible
    community_stack.Store.Read.update_count community_stack.Store.Read.log_head
    community_stack.Store.Commit.follows community_stack.Store.Commit.same_operation
    community_stack.Store.Commit.append_record community_stack.Store.Commit.apply_projections
    community_stack.Store.Commit.store_response community_stack.Store.Read.same_document
    community_stack.Common.any community_stack.Common.count community_stack.Common.find
    community_stack.Store.Read.of_key community_stack.Store.Commit.set_head
    community_stack.Store.Commit.next_outbox_id community_stack.Store.Commit.next_change_id
    community_stack.Store.Commit.priority_for community_stack.Store.Read.of_log
    community_stack.Store.Read.of_document
early_done = refl

lease_excludes_example : (handed 12 1).operation_hash ≢ (handed 11 1).operation_hash
lease_excludes_example =
    lease_excludes 3000 63000 "rns" 1 100 9 100 (handed 11 1 ∷ []) (handed 12 1 ∷ []) two one_out
      other_out (claim 63000 "rns" 9 100 other_out).1 (handed 11 1) (handed 12 1) one_done between
      (omega arith) early_done (inl refl) (inl refl)

again_done :
    claim_outbox 63001 "rns" 1 100 other_out
    ≡ ok (handed 11 2 ∷ [], (claim 63001 "rns" 1 100 other_out).1)
unfolding claim_outbox ack_outbox validate_id community_stack.Common.all_chars
    community_stack.Store.Outbox.candidates community_stack.Common.filter_map
    community_stack.Store.Outbox.join_row community_stack.Store.Outbox.is_claimable
    community_stack.Store.Outbox.is_open of_delivery community_stack.Store.Outbox.candidate_before
    community_stack.Store.Outbox.lease_row community_stack.Store.Outbox.lease_attempt
    community_stack.Store.Outbox.size community_stack.Store.Outbox.claim_each
    community_stack.Store.Outbox.is_leased community_stack.Common.update
    community_stack.Common.Sort.sort community_stack.Common.Sort.insert
    community_stack.Store.Commit.commit_local community_stack.Store.Commit.admissible
    community_stack.Store.Read.update_count community_stack.Store.Read.log_head
    community_stack.Store.Commit.follows community_stack.Store.Commit.same_operation
    community_stack.Store.Commit.append_record community_stack.Store.Commit.apply_projections
    community_stack.Store.Commit.store_response community_stack.Store.Read.same_document
    community_stack.Common.any community_stack.Common.count community_stack.Common.find
    community_stack.Store.Read.of_key community_stack.Store.Commit.set_head
    community_stack.Store.Commit.next_outbox_id community_stack.Store.Commit.next_change_id
    community_stack.Store.Commit.priority_for community_stack.Store.Read.of_log
    community_stack.Store.Read.of_document
again_done = refl

attempts_increase_example : (handed 11 1).lease_attempt < (handed 11 2).lease_attempt
attempts_increase_example =
    attempts_increase 3000 3000 63001 "rns" 1 100 1 100 (handed 11 1 ∷ []) (handed 11 2 ∷ []) two
      one_out other_out (claim 63001 "rns" 1 100 other_out).1 (handed 11 1) (handed 11 2) one_done
      between again_done (inl refl) (inl refl) refl

two-IsKeyed : IsKeyed two.deliveries
unfolding claim_outbox ack_outbox validate_id community_stack.Common.all_chars
    community_stack.Store.Outbox.candidates community_stack.Common.filter_map
    community_stack.Store.Outbox.join_row community_stack.Store.Outbox.is_claimable
    community_stack.Store.Outbox.is_open of_delivery community_stack.Store.Outbox.candidate_before
    community_stack.Store.Outbox.lease_row community_stack.Store.Outbox.lease_attempt
    community_stack.Store.Outbox.size community_stack.Store.Outbox.claim_each
    community_stack.Store.Outbox.is_leased community_stack.Common.update
    community_stack.Common.Sort.sort community_stack.Common.Sort.insert
    community_stack.Store.Commit.commit_local community_stack.Store.Commit.admissible
    community_stack.Store.Read.update_count community_stack.Store.Read.log_head
    community_stack.Store.Commit.follows community_stack.Store.Commit.same_operation
    community_stack.Store.Commit.append_record community_stack.Store.Commit.apply_projections
    community_stack.Store.Commit.store_response community_stack.Store.Read.same_document
    community_stack.Common.any community_stack.Common.count community_stack.Common.find
    community_stack.Store.Read.of_key community_stack.Store.Commit.set_head
    community_stack.Store.Commit.next_outbox_id community_stack.Store.Commit.next_change_id
    community_stack.Store.Commit.priority_for community_stack.Store.Read.of_log
    community_stack.Store.Read.of_document
two-IsKeyed k u = omega arith

to_one : Steps 0 two one_out
to_one = next (claimed 3000 "rns" 1 100 (handed 11 1 ∷ []) (omega arith) one_done) done

one_out-IsKeyed : IsKeyed one_out.deliveries
one_out-IsKeyed = Steps-IsKeyed 0 two one_out to_one two-IsKeyed

abbrev report : AckOutbox
report = record {
  transport = "rns";
  operation_hash = 11;
  lease_attempt = 1;
  status = applied;
  detail = none;
}

abbrev reported : Database
reported = from_ok one_out (ack_outbox 4000 report one_out)

report_done : ack_outbox 4000 report one_out ≡ ok reported
unfolding claim_outbox ack_outbox validate_id community_stack.Common.all_chars
    community_stack.Store.Outbox.candidates community_stack.Common.filter_map
    community_stack.Store.Outbox.join_row community_stack.Store.Outbox.is_claimable
    community_stack.Store.Outbox.is_open of_delivery community_stack.Store.Outbox.candidate_before
    community_stack.Store.Outbox.lease_row community_stack.Store.Outbox.lease_attempt
    community_stack.Store.Outbox.size community_stack.Store.Outbox.claim_each
    community_stack.Store.Outbox.is_leased community_stack.Common.update
    community_stack.Common.Sort.sort community_stack.Common.Sort.insert
    community_stack.Store.Commit.commit_local community_stack.Store.Commit.admissible
    community_stack.Store.Read.update_count community_stack.Store.Read.log_head
    community_stack.Store.Commit.follows community_stack.Store.Commit.same_operation
    community_stack.Store.Commit.append_record community_stack.Store.Commit.apply_projections
    community_stack.Store.Commit.store_response community_stack.Store.Read.same_document
    community_stack.Common.any community_stack.Common.count community_stack.Common.find
    community_stack.Store.Read.of_key community_stack.Store.Commit.set_head
    community_stack.Store.Commit.next_outbox_id community_stack.Store.Commit.next_change_id
    community_stack.Store.Commit.priority_for community_stack.Store.Read.of_log
    community_stack.Store.Read.of_document
report_done = refl

after_done :
    claim_outbox 900000 "rns" 9 100 reported
    ≡ ok (handed 12 1 ∷ [], (claim 900000 "rns" 9 100 reported).1)
unfolding claim_outbox ack_outbox validate_id community_stack.Common.all_chars
    community_stack.Store.Outbox.candidates community_stack.Common.filter_map
    community_stack.Store.Outbox.join_row community_stack.Store.Outbox.is_claimable
    community_stack.Store.Outbox.is_open of_delivery community_stack.Store.Outbox.candidate_before
    community_stack.Store.Outbox.lease_row community_stack.Store.Outbox.lease_attempt
    community_stack.Store.Outbox.size community_stack.Store.Outbox.claim_each
    community_stack.Store.Outbox.is_leased community_stack.Common.update
    community_stack.Common.Sort.sort community_stack.Common.Sort.insert
    community_stack.Store.Commit.commit_local community_stack.Store.Commit.admissible
    community_stack.Store.Read.update_count community_stack.Store.Read.log_head
    community_stack.Store.Commit.follows community_stack.Store.Commit.same_operation
    community_stack.Store.Commit.append_record community_stack.Store.Commit.apply_projections
    community_stack.Store.Commit.store_response community_stack.Store.Read.same_document
    community_stack.Common.any community_stack.Common.count community_stack.Common.find
    community_stack.Store.Read.of_key community_stack.Store.Commit.set_head
    community_stack.Store.Commit.next_outbox_id community_stack.Store.Commit.next_change_id
    community_stack.Store.Commit.priority_for community_stack.Store.Read.of_log
    community_stack.Store.Read.of_document
after_done = refl

ack_is_final_example : (handed 12 1).operation_hash ≢ 11
ack_is_final_example =
    ack_is_final 4000 4000 900000 report 9 100 (handed 12 1 ∷ []) one_out reported reported
      (claim 900000 "rns" 9 100 reported).1 (handed 12 1) one_out-IsKeyed report_done done
      after_done (inl refl)

claim_within_budget_example :
    (total (handed 11 1 ∷ []) ≤ 100) × (length (handed 11 1 ∷ []) ≤ min 1 256)
claim_within_budget_example =
    claim_within_budget 3000 "rns" 1 100 (handed 11 1 ∷ []) two one_out one_done

-- The second record is smaller than the first.
abbrev small : LocalCommit
small = record second {
  canonical_record = record second.canonical_record { canonical_header = [] };
}

abbrev uneven : Database
uneven = from_ok one (commit_local 2000 small one)

transport_valid : validate_id "rns" "transport" ≡ ok tt
unfolding validate_id community_stack.Common.all_chars
transport_valid = refl

claim_nothing_iff_example :
    (claim_outbox 3000 "rns" 1 2 uneven ≡ ok ([], uneven))
    ↔ All (λ c. 2 < size c) (take (min 1 256) (sorted_candidates "rns" 3000 uneven))
claim_nothing_iff_example = claim_nothing_iff 3000 "rns" 1 2 uneven transport_valid

-- A transport that takes one record at a time, of at most two bytes, gets nothing, while a record of
-- one byte waits.
blocked : claim_outbox 3000 "rns" 1 2 uneven ≡ ok ([], uneven)
unfolding claim_outbox ack_outbox validate_id community_stack.Common.all_chars
    community_stack.Store.Outbox.candidates community_stack.Common.filter_map
    community_stack.Store.Outbox.join_row community_stack.Store.Outbox.is_claimable
    community_stack.Store.Outbox.is_open of_delivery community_stack.Store.Outbox.candidate_before
    community_stack.Store.Outbox.lease_row community_stack.Store.Outbox.lease_attempt
    community_stack.Store.Outbox.size community_stack.Store.Outbox.claim_each
    community_stack.Store.Outbox.is_leased community_stack.Common.update
    community_stack.Common.Sort.sort community_stack.Common.Sort.insert
    community_stack.Store.Commit.commit_local community_stack.Store.Commit.admissible
    community_stack.Store.Read.update_count community_stack.Store.Read.log_head
    community_stack.Store.Commit.follows community_stack.Store.Commit.same_operation
    community_stack.Store.Commit.append_record community_stack.Store.Commit.apply_projections
    community_stack.Store.Commit.store_response community_stack.Store.Read.same_document
    community_stack.Common.any community_stack.Common.count community_stack.Common.find
    community_stack.Store.Read.of_key community_stack.Store.Commit.set_head
    community_stack.Store.Commit.next_outbox_id community_stack.Store.Commit.next_change_id
    community_stack.Store.Commit.priority_for community_stack.Store.Read.of_log
    community_stack.Store.Read.of_document
blocked = refl

abbrev handed_out : ℕ
handed_out = let got = from_ok ([], uneven) (claim_outbox 3000 "rns" 2 2 uneven) in length got.0

waiting : handed_out ≡ 1
unfolding claim_outbox ack_outbox validate_id community_stack.Common.all_chars
    community_stack.Store.Outbox.candidates community_stack.Common.filter_map
    community_stack.Store.Outbox.join_row community_stack.Store.Outbox.is_claimable
    community_stack.Store.Outbox.is_open of_delivery community_stack.Store.Outbox.candidate_before
    community_stack.Store.Outbox.lease_row community_stack.Store.Outbox.lease_attempt
    community_stack.Store.Outbox.size community_stack.Store.Outbox.claim_each
    community_stack.Store.Outbox.is_leased community_stack.Common.update
    community_stack.Common.Sort.sort community_stack.Common.Sort.insert
    community_stack.Store.Commit.commit_local community_stack.Store.Commit.admissible
    community_stack.Store.Read.update_count community_stack.Store.Read.log_head
    community_stack.Store.Commit.follows community_stack.Store.Commit.same_operation
    community_stack.Store.Commit.append_record community_stack.Store.Commit.apply_projections
    community_stack.Store.Commit.store_response community_stack.Store.Read.same_document
    community_stack.Common.any community_stack.Common.count community_stack.Common.find
    community_stack.Store.Read.of_key community_stack.Store.Commit.set_head
    community_stack.Store.Commit.next_outbox_id community_stack.Store.Commit.next_change_id
    community_stack.Store.Commit.priority_for community_stack.Store.Read.of_log
    community_stack.Store.Read.of_document
waiting = refl

two-IsDistinct : IsDistinct two.log.outbox
unfolding claim_outbox ack_outbox validate_id community_stack.Common.all_chars
    community_stack.Store.Outbox.candidates community_stack.Common.filter_map
    community_stack.Store.Outbox.join_row community_stack.Store.Outbox.is_claimable
    community_stack.Store.Outbox.is_open of_delivery community_stack.Store.Outbox.candidate_before
    community_stack.Store.Outbox.lease_row community_stack.Store.Outbox.lease_attempt
    community_stack.Store.Outbox.size community_stack.Store.Outbox.claim_each
    community_stack.Store.Outbox.is_leased community_stack.Common.update
    community_stack.Common.Sort.sort community_stack.Common.Sort.insert
    community_stack.Store.Commit.commit_local community_stack.Store.Commit.admissible
    community_stack.Store.Read.update_count community_stack.Store.Read.log_head
    community_stack.Store.Commit.follows community_stack.Store.Commit.same_operation
    community_stack.Store.Commit.append_record community_stack.Store.Commit.apply_projections
    community_stack.Store.Commit.store_response community_stack.Store.Read.same_document
    community_stack.Common.any community_stack.Common.count community_stack.Common.find
    community_stack.Store.Read.of_key community_stack.Store.Commit.set_head
    community_stack.Store.Commit.next_outbox_id community_stack.Store.Commit.next_change_id
    community_stack.Store.Commit.priority_for community_stack.Store.Read.of_log
    community_stack.Store.Read.of_document
two-IsDistinct h = ground arith

holder_can_acknowledge_example : (c : Database) × (ack_outbox 63000 report one_out ≡ ok c)
holder_can_acknowledge_example =
    holder_can_acknowledge 3000 63000 1 100 (handed 11 1 ∷ []) two one_out (handed 11 1) report
      two-IsDistinct one_done (inl refl) refl refl (omega arith)
