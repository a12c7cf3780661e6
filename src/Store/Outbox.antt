-- ===== src/Store/Outbox.antt =====
-- `claim_outbox` and `ack_outbox` of src/adapters/sqlite.rs: how a transport takes records from the
-- durable outbox under a lease, and reports what became of them.
pub mod Rows
pub mod Budget
pub mod Lease
pub mod Steps
pub mod Exclusion
pub mod Settled
pub mod Fencing
pub mod Holder
use community_stack.Common.{
  ℕ, suc, String, len, is_empty, is_ascii_alphanumeric, all_chars, concat, Bool, true, false, not,
  ◌&&◌, ◌||◌, ◌+◌, List, [], ◌∷◌, Option, none, some, ◌==◌, str_eq, ltb, leb, if◌then◌else◌, find,
  any, update, length, take, filter_map, min,
}
use community_stack.Common.Sort.{sort}
use community_stack.Domain.Replication.{
  Hash, Bytes, OutboxItem, AckOutbox, DeliveryAck, stored, applied, pending_deps, rejected,
}
use community_stack.Failure.{Check, Result, ok, bail, reject, ◌>>=◌, ◌>>◌}
use community_stack.Store.Tables.{Operation, OutboxRow, Delivery, DeliveryState, Database}

abbrev pub is_id_byte : ℕ → Bool
is_id_byte b = is_ascii_alphanumeric b || b == 46 || b == 95 || b == 45 || b == 58 || b == 47

unfoldable pub validate_id : String → String → Check
validate_id value field = do
  reject (is_empty value || ltb 128 (len value)) (bail (concat field " must contain 1..=128 bytes"))
  reject (not (all_chars is_id_byte value)) (bail (concat field " contains unsupported characters"))

-- The rows that the query of `claim_outbox` joins.
pub record Candidate : Type 0 where
  pub outbox_id : ℕ
  pub operation_hash : Hash
  pub header : Bytes
  pub body : Bytes
  pub priority : ℕ

unfoldable pub of_delivery : Hash → String → Delivery → Bool
of_delivery hash transport d = d.operation_hash == hash && str_eq d.transport transport

-- `d.state IS NULL OR (d.state='CLAIMED' AND d.lease_until_ms<?2) OR d.state='RETRY'`
unfoldable pub is_open : ℕ → Option Delivery → Bool
is_open now none = true
is_open now (some d) = elim d.state [
  | DeliveryState.claimed ↦ elim d.lease_until_ms [ none ↦ false | some until ↦ ltb until now ]
  | DeliveryState.retry ↦ true
  | _ ↦ false
]

unfoldable pub is_claimable : String → ℕ → List Delivery → OutboxRow → Bool
is_claimable transport now ds q =
    leb q.available_at_ms now && is_open now (find (of_delivery q.operation_hash transport) ds)

abbrev pub candidate : OutboxRow → Operation → Candidate
candidate q o = record {
  outbox_id = q.outbox_id;
  operation_hash = q.operation_hash;
  header = o.canonical_header;
  body = o.body_ciphertext;
  priority = q.priority;
}

-- The `JOIN` and the `WHERE` of the query, for one row of the outbox.
unfoldable pub join_row : String → ℕ → Database → OutboxRow → Option Candidate
join_row transport now db q =
    if is_claimable transport now db.deliveries q
    then elim (find (λ o. o.operation_hash == q.operation_hash) db.log.operations) [
      | none ↦ none
      | some o ↦ some (candidate q o)
    ]
    else none

-- `ORDER BY q.priority ASC, q.outbox_id ASC`
unfoldable pub candidate_before : Candidate → Candidate → Bool
candidate_before a b =
    ltb a.priority b.priority || a.priority == b.priority && ltb a.outbox_id b.outbox_id

abbrev pub sorted_candidates : String → ℕ → Database → List Candidate
sorted_candidates transport now db =
    sort candidate_before (filter_map (join_row transport now db) db.log.outbox)

unfoldable pub candidates : String → ℕ → ℕ → Database → List Candidate
candidates transport limit now db = take (min limit 256) (sorted_candidates transport now db)

abbrev pub lease_ms : ℕ
lease_ms = 60000

abbrev pub first_lease : Hash → String → ℕ → Delivery
first_lease hash transport now = record {
  operation_hash = hash;
  transport = transport;
  state = DeliveryState.claimed;
  attempts = 1;
  lease_until_ms = some (now + lease_ms);
  last_error = none;
  durable_ack = none;
  updated_at_ms = now;
}

abbrev pub lease_again : ℕ → Delivery → Delivery
lease_again now d = record d {
  state = DeliveryState.claimed;
  attempts = suc d.attempts;
  lease_until_ms = some (now + lease_ms);
  updated_at_ms = now;
}

-- `INSERT INTO transport_deliveries … ON CONFLICT(operation_hash,transport) DO UPDATE`
unfoldable pub lease_row : Hash → String → ℕ → List Delivery → List Delivery
lease_row hash transport now [] = first_lease hash transport now ∷ []
lease_row hash transport now (d ∷ ds) =
    let rest = lease_row hash transport now ds in
    if of_delivery hash transport d then lease_again now d ∷ ds else d ∷ rest

-- `SELECT attempts`, after the row is there.
abbrev pub attempt_of : Option Delivery → ℕ
attempt_of none = 0
attempt_of (some d) = d.attempts

unfoldable pub lease_attempt : Hash → String → List Delivery → ℕ
lease_attempt hash transport ds = attempt_of (find (of_delivery hash transport) ds)

unfoldable pub size : Candidate → ℕ
size c = length c.header + length c.body

abbrev pub item : Candidate → ℕ → OutboxItem
item c attempt = record {
  operation_hash = c.operation_hash;
  lease_attempt = attempt;
  header = c.header;
  body = c.body;
  priority = c.priority;
}

-- The loop over the candidates: `first` says that nothing has been taken yet, `used` is the number
-- of bytes taken.
unfoldable pub claim_each :
    String → ℕ → ℕ → Bool → ℕ → List Candidate → List Delivery → List OutboxItem × List Delivery
claim_each transport max_bytes now first used [] ds = ([], ds)
claim_each transport max_bytes now first used (c ∷ cs) ds =
    let skipped = claim_each transport max_bytes now first used cs ds in
    let leased = lease_row c.operation_hash transport now ds in
    let rest = claim_each transport max_bytes now false (used + size c) cs leased in
    if not first && ltb max_bytes (used + size c)
    then ([], ds)
    else if ltb max_bytes (size c)
    then skipped
    else (item c (lease_attempt c.operation_hash transport leased) ∷ rest.0, rest.1)

unfoldable pub claim_outbox : ℕ → String → ℕ → ℕ → Database → Result (List OutboxItem × Database)
claim_outbox now transport limit max_bytes db = do
  validate_id transport "transport"
  let (items, ds) =
      claim_each transport max_bytes now true 0 (candidates transport limit now db) db.deliveries
  ok (items, record db { deliveries = ds })

abbrev pub ack_state : DeliveryAck → DeliveryState × String
ack_state stored = (DeliveryState.delivered, "STORED")
ack_state applied = (DeliveryState.delivered, "APPLIED")
ack_state pending_deps = (DeliveryState.delivered, "PENDING_DEPS")
ack_state rejected = (DeliveryState.rejected, "REJECTED")

-- `state='CLAIMED' AND attempts=?7 AND lease_until_ms>=?4`, for the row of the hash and transport.
unfoldable pub is_leased : AckOutbox → ℕ → Delivery → Bool
is_leased ack now d =
    of_delivery ack.operation_hash ack.transport d
    && elim d.state [ DeliveryState.claimed ↦ true | _ ↦ false ]
    && d.attempts == ack.lease_attempt
    && elim d.lease_until_ms [ none ↦ false | some until ↦ leb now until ]

abbrev pub settle : AckOutbox → ℕ → Delivery → Delivery
settle ack now d = record d {
  state = (ack_state ack.status).0;
  durable_ack = some (ack_state ack.status).1;
  last_error = ack.detail;
  lease_until_ms = none;
  updated_at_ms = now;
}

-- A decoded hash has 32 bytes; a text that does not decode to them is refused before this.
unfoldable pub ack_outbox : ℕ → AckOutbox → Database → Result Database
ack_outbox now ack db = do
  validate_id ack.transport "transport"
  reject (not (any (is_leased ack now) db.deliveries))
      (bail "outbox item lease is stale or is not claimed by this transport")
  ok (record db { deliveries = update (is_leased ack now) (settle ack now) db.deliveries })
