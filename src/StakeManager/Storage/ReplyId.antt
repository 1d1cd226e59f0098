-- ===== src/StakeManager/Storage/ReplyId.antt =====
-- The ids under which sent messages are reported (contracts/stake_manager/src/state.rs).
use neutron_contracts.Base.{
  Option, arith, if◌then◌else◌, ltb, may_load-save_self, nat_eq, none, ok, pair_eq, save, some,
  some_injective, string_eq, ℕ, ◌+◌, ◌<◌, ◌≡◌, ◌≢◌, ◌≤◌,
}
use neutron_contracts.Base.U64
use neutron_contracts.StakeManager.Types.{
  SudoPayload, coin_eq, era_status_eq, validator_update_status_eq,
}
use neutron_contracts.StakeManager.Storage.{
  Storage, get_next_reply_id, or_default, query_reply_id_range_start, read_reply_payload,
  reply_id_range_end, reply_id_range_start, save_reply_payload,
}

abbrev pub InRange : Option ℕ → Type 0
InRange none = Unit
InRange (some id) = (reply_id_range_start ≤ id) × (id ≤ reply_id_range_end)

or_default-InRange :
    (o : Option ℕ)
    → InRange o
    → (reply_id_range_start ≤ or_default o reply_id_range_start)
      × (or_default o reply_id_range_start ≤ reply_id_range_end)
or_default-InRange none inside = (omega arith, omega arith)
or_default-InRange (some id) inside = inside

module _ (id : ℕ) (bounds : (reply_id_range_start ≤ id) × (id ≤ reply_id_range_end)) where
  following-InRange :
      InRange (some (if ltb reply_id_range_end (id + 1) then reply_id_range_start else id + 1))
  following-InRange = ground (arith, bounds)

  following_other : (if ltb reply_id_range_end (id + 1) then reply_id_range_start else id + 1) ≢ id
  following_other = ground (arith, bounds)

-- While the last id stored is in its range, there is a next id, in the range of replies and not
-- in that of queries, the id stored after it is in the range again and differs from it, and the
-- payload is found under the id.
pub save_reply_payload_total :
    (payload : SudoPayload) (s : Storage)
    → InRange s.latest_reply_id
    → (id : ℕ) × (s' : Storage) × (save_reply_payload payload s ≡ ok (id, s'))
      × ((reply_id_range_start ≤ id) × (id ≤ reply_id_range_end))
      × (id < query_reply_id_range_start)
      × InRange s'.latest_reply_id
      × (s'.latest_reply_id ≢ some id)
      × (read_reply_payload s' id ≡ ok payload)
unfolding save_reply_payload get_next_reply_id read_reply_payload U64.add
save_reply_payload_total payload s inside =
    let id = or_default s.latest_reply_id reply_id_range_start in
    let bounds = or_default-InRange s.latest_reply_id inside in
    let following = if ltb reply_id_range_end (id + 1) then reply_id_range_start else id + 1 in
    (
      id,
      record s {
        latest_reply_id = some following;
        reply_id_to_payload = save id payload s.reply_id_to_payload;
      },
      ground (arith, bounds),
      bounds,
      omega (arith, bounds.1),
      following-InRange id bounds,
      (λ e. following_other id bounds (some_injective e)),
      ground (arith, may_load-save_self id payload s.reply_id_to_payload),
    )
