-- ===== src/StakeManager/Setup/Icq/Registered.antt =====
-- The reply ids of registered queries (query_callback.rs).
use neutron_contracts.Base.{
  ==_iff, Bool-cases, String, ap, arith, false, if◌then◌else◌, inl, inr, may_load, may_load-save,
  may_load-save_self, nat_eq, ok, ok_injective, pair_eq, refl, save, some, some_injective,
  string_eq, subst, sym, true, ℕ, ◌+◌, ◌<◌, ◌==◌, ◌>>=◌, ◌∙◌, ◌≡◌,
}
use neutron_contracts.Base.U64
use neutron_contracts.StakeManager.Messages.{Msg, Response, SubMsg}
use neutron_contracts.StakeManager.Storage.{
  Storage, get_next_query_reply_id, or_default, or_not_found, query_reply_id_range_end,
  query_reply_id_range_start,
}
use neutron_contracts.StakeManager.Helper.{get_query_id}
use neutron_contracts.StakeManager.Types.{
  QueryKind, coin_eq, era_status_eq, query_kind_to_string, validator_update_status_eq,
}
use neutron_contracts.StakeManager.Setup.Icq.{register_query_submsg, write_reply_id_to_query_id}

-- The address and the kind of a query.
abbrev pub Key : Type 0
Key = String × String

-- The reply id that the next registration takes.
abbrev pub next_query_id : Storage → ℕ
next_query_id s = or_default s.latest_query_reply_id query_reply_id_range_start

-- No reply id of a registered query is to come.
abbrev pub IsNumbered : Storage → Type 0
IsNumbered s = (k : Key) (n : ℕ) → may_load k s.address_to_reply_id ≡ some n → n < next_query_id s

-- Registrations of other queries that succeed, and the replies to registrations of other queries.
pub data Others (k : Key) : Storage → Storage → Type 0 where
  nothing : {s : Storage} → Others k s s
  registers :
      {s t t' : Storage} (msg : Msg) (addr : String) (kind : QueryKind) (m : SubMsg)
      → Others k s t
      → ((addr, query_kind_to_string kind) == k) ≡ false
      → next_query_id t < query_reply_id_range_end
      → register_query_submsg msg addr kind t ≡ ok (m, t')
      → Others k s t'
  answers :
      {s t t' : Storage} (other : Key) (reply_id query_id : ℕ) (r : Response)
      → Others k s t
      → (other == k) ≡ false
      → may_load other t.address_to_reply_id ≡ some reply_id
      → write_reply_id_to_query_id reply_id (ok query_id) t ≡ ok (t', r)
      → Others k s t'

-- What a registration does, while the reply ids have not reached the end of their range.
record Registers (k : Key) (s s' : Storage) (m : SubMsg) : Type 0 where
  saved : s'.address_to_reply_id ≡ save k (next_query_id s) s.address_to_reply_id
  known : s'.reply_id_to_query_id ≡ s.reply_id_to_query_id
  next : next_query_id s' ≡ next_query_id s + 1
  awaits : m.reply_on_success ≡ some (next_query_id s)

register_query_submsg-Registers :
    (msg : Msg) (addr : String) (kind : QueryKind) (s s' : Storage) (m : SubMsg)
    → next_query_id s < query_reply_id_range_end
    → register_query_submsg msg addr kind s ≡ ok (m, s')
    → Registers (addr, query_kind_to_string kind) s s' m
unfolding register_query_submsg get_next_query_reply_id U64.add
register_query_submsg-Registers msg addr QueryKind.balances s s' m room h = record {
  saved = ground arith;
  known = ground arith;
  next = ground arith;
  awaits = ground arith;
}
register_query_submsg-Registers msg addr QueryKind.delegations s s' m room h = record {
  saved = ground arith;
  known = ground arith;
  next = ground arith;
  awaits = ground arith;
}
register_query_submsg-Registers msg addr QueryKind.validators s s' m room h = record {
  saved = ground arith;
  known = ground arith;
  next = ground arith;
  awaits = ground arith;
}

-- What a reply stores.
record Answers (n query_id : ℕ) (s s' : Storage) : Type 0 where
  stored : s'.reply_id_to_query_id ≡ save n query_id s.reply_id_to_query_id
  kept : s'.address_to_reply_id ≡ s.address_to_reply_id
  next : next_query_id s' ≡ next_query_id s

write_reply_id_to_query_id-Answers :
    (n query_id : ℕ) (s s' : Storage) (r : Response)
    → write_reply_id_to_query_id n (ok query_id) s ≡ ok (s', r)
    → Answers n query_id s s'
unfolding write_reply_id_to_query_id
write_reply_id_to_query_id-Answers n query_id s s' r h =
    let new = sym (ok_injective h) in
    record {
      stored = ap (λ (x : Storage × Response). x.0.reply_id_to_query_id) new;
      kept = ap (λ (x : Storage × Response). x.0.address_to_reply_id) new;
      next = ap (λ (x : Storage × Response). next_query_id x.0) new;
    }

-- The query has this reply id, which no other query has, and none is to have.
record Holds (k : Key) (n : ℕ) (s : Storage) : Type 0 where
  own : may_load k s.address_to_reply_id ≡ some n
  apart :
      (j : Key) (m : ℕ)
      → (j == k) ≡ false
      → may_load j s.address_to_reply_id ≡ some m
      → (m == n) ≡ false
  past : n < next_query_id s

Answers-Holds :
    (k : Key) (n reply_id query_id : ℕ) (s s' : Storage)
    → Answers reply_id query_id s s'
    → Holds k n s
    → Holds k n s'
Answers-Holds k n reply_id query_id s s' answer holds = record {
  own = ap (may_load k) answer.kept ∙ holds.own;
  apart = λ j m different e. holds.apart j m different (sym (ap (may_load j) answer.kept) ∙ e);
  past = omega (arith, holds.past, answer.next);
}

-- The registration of another query takes a reply id that is past this one.
Registers-Holds :
    (k j : Key) (n : ℕ) (s s' : Storage) (m : SubMsg)
    → Registers j s s' m
    → (j == k) ≡ false
    → Holds k n s
    → Holds k n s'
Registers-Holds k j n s s' m new different holds = record {
  own =
      lookup k
      ∙ subst
          (λ b. (if b then some (next_query_id s) else may_load k s.address_to_reply_id) ≡ some n)
          (sym different) holds.own;
  apart = λ i x other e. elim (Bool-cases (j == i)) [
    | inl here ↦
        let taken = some_injective (sym (found i here) ∙ e) in ground (arith, taken, holds.past)
    | inr elsewhere ↦ holds.apart i x other (sym (missed i elsewhere) ∙ e)
  ];
  past = omega (arith, holds.past, new.next);
}
  where
    lookup :
        (i : Key)
        → may_load i s'.address_to_reply_id
          ≡ (if j == i then some (next_query_id s) else may_load i s.address_to_reply_id)
    lookup i = ap (may_load i) new.saved ∙ may_load-save i j (next_query_id s) s.address_to_reply_id

    found : (i : Key) → (j == i) ≡ true → may_load i s'.address_to_reply_id ≡ some (next_query_id s)
    found i same = lookup i ∙ rw same

    missed :
        (i : Key)
        → (j == i) ≡ false
        → may_load i s'.address_to_reply_id ≡ may_load i s.address_to_reply_id
    missed i other = lookup i ∙ rw other

-- Other queries leave the reply id, and the answer that it has, if any.
Others-Holds :
    (k : Key) (n : ℕ) (s t : Storage)
    → Others k s t
    → Holds k n s
    → Holds k n t × (may_load n t.reply_id_to_query_id ≡ may_load n s.reply_id_to_query_id)
Others-Holds k n s t nothing holds = (holds, refl)
Others-Holds k n s t' (registers {t = t} msg addr kind m others different room h) holds =
    let (held, same) = Others-Holds k n s t others holds in
    let new = register_query_submsg-Registers msg addr kind t t' m room h in
    (
      Registers-Holds k (addr, query_kind_to_string kind) n t t' m new different held,
      ap (may_load n) new.known ∙ same,
    )
Others-Holds k n s t' (answers {t = t} other reply_id query_id r others different known h) holds =
    let (held, same) = Others-Holds k n s t others holds in
    let answer = write_reply_id_to_query_id-Answers reply_id query_id t t' r h in
    (
      Answers-Holds k n reply_id query_id t t' answer held,
      ap (may_load n) answer.stored
          ∙ may_load-save n reply_id query_id t.reply_id_to_query_id
          ∙ (rw (held.apart other reply_id different known))
          ∙ same,
    )

==_swap : (a b : Key) → (b == a) ≡ false → (a == b) ≡ false
==_swap a b h = ground (arith, ==_iff a b, ==_iff b a)

-- A query that has just been registered.
Registers-Holds_self :
    (k : Key) (n : ℕ) (s s' : Storage) (m : SubMsg)
    → IsNumbered s
    → Registers k s s' m
    → m.reply_on_success ≡ some n
    → Holds k n s'
Registers-Holds_self k n s s' m numbered new e =
    let same = some_injective (sym new.awaits ∙ e) in
    record {
      own =
          ap (may_load k) new.saved
          ∙ may_load-save_self k (next_query_id s) s.address_to_reply_id
          ∙ ap some same;
      apart = λ j x other f.
          let old : may_load j s.address_to_reply_id ≡ some x =
            sym (
              ap (may_load j) new.saved
              ∙ may_load-save j k (next_query_id s) s.address_to_reply_id
              ∙ rw (==_swap k j other))
            ∙ f in
          ground (arith, numbered j x old, same);
      past = omega (arith, same, new.next);
    }

-- When the reply to the registration of a query brings the query's id, the query of this address
-- and kind is found under it, whatever other queries are registered and answered before the reply
-- and after it. Before the registration every reply id in use was below the next one, and no
-- registration reaches the end of the range of reply ids.
pub get_query_id_registered :
    (msg : Msg) (addr : String) (kind : QueryKind) (s s' t t' u : Storage) (m : SubMsg)
    (reply_id query_id : ℕ) (r : Response)
    → IsNumbered s
    → next_query_id s < query_reply_id_range_end
    → register_query_submsg msg addr kind s ≡ ok (m, s')
    → m.reply_on_success ≡ some reply_id
    → Others (addr, query_kind_to_string kind) s' t
    → write_reply_id_to_query_id reply_id (ok query_id) t ≡ ok (t', r)
    → Others (addr, query_kind_to_string kind) t' u
    → get_query_id u addr kind ≡ ok query_id
unfolding get_query_id
get_query_id_registered msg addr kind s s' t t' u m reply_id query_id r numbered room h e before w
      later =
    let k : Key = (addr, query_kind_to_string kind) in
    let new = register_query_submsg-Registers msg addr kind s s' m room h in
    let answer = write_reply_id_to_query_id-Answers reply_id query_id t t' r w in
    let (held, _) =
      Others-Holds k reply_id s' t before (Registers-Holds_self k reply_id s s' m numbered new e) in
    let (at_end, same) =
      Others-Holds k reply_id t' u later
        (Answers-Holds k reply_id reply_id query_id t t' answer held) in
    ap (λ o. or_not_found o >>= λ i. or_not_found (may_load i u.reply_id_to_query_id)) at_end.own
    ∙ ap or_not_found (
        same
        ∙ ap (may_load reply_id) answer.stored
        ∙ may_load-save_self reply_id query_id t.reply_id_to_query_id)
