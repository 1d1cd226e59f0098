-- ===== src/StakeManager/Setup/Register/Opened.antt =====
-- The order in which the two channels of a pool open (`sudo_open_ack` of execute_register_pool.rs).
use neutron_contracts.Base.{
  Bool, Outcome, String, [], ap, arith, false, has, if◌then◌else◌, may_load-save_self, nat_eq, not,
  ok, pair_eq, refl, save, save-save, some, string_eq, true, ◌&&◌, ◌>>=◌, ◌∙◌, ◌≡◌,
}
use neutron_contracts.StakeManager.Storage.{Storage, or_not_found, save_pool}
use neutron_contracts.Base.Text.{is_empty, split}
use neutron_contracts.StakeManager.Types.{
  Addr, IcaInfo, coin_eq, era_status_eq, validator_update_status_eq,
}
use neutron_contracts.StakeManager.Errors.{ContractError}
use neutron_contracts.StakeManager.Messages.{Response}
use neutron_contracts.StakeManager.Helper.{load_ica}
use neutron_contracts.StakeManager.Setup.Icq.{Icq, OpenAckVersion, second_of_two}
use neutron_contracts.StakeManager.Setup.Register.{
  account_of, open_account, opened, registered_pool, sudo_open_ack,
}

-- An acknowledgement for an account: its port names the account, and its version can be parsed.
pub record Ack (icq : Icq) (is_pool : Bool) (ica_id : String) : Type 0 where
  pub port_id : String
  pub channel_id : String
  pub counterparty_channel_id : String
  pub counterparty_version : String
  pub raw : String
  pub version : OpenAckVersion
  pub names : second_of_two (split "." port_id) ≡ some raw
  pub account : account_of raw ≡ ok (is_pool, ica_id)
  pub parsed : icq.parse_version counterparty_version ≡ some version
  pub addressed : is_empty version.address ≡ false

abbrev pub acknowledge :
    {icq : Icq} {is_pool : Bool} {ica_id : String}
    → Ack icq is_pool ica_id
    → Storage
    → Outcome ContractError (Storage × Response)
acknowledge {icq} ack s =
    sudo_open_ack icq ack.port_id ack.channel_id ack.counterparty_channel_id
      ack.counterparty_version s

-- The account after its acknowledgement.
abbrev pub with_ack :
    {icq : Icq} {is_pool : Bool} {ica_id : String} → Ack icq is_pool ica_id → IcaInfo → IcaInfo
with_ack ack = opened ack.version ack.port_id ack.channel_id ack.counterparty_channel_id

acknowledge_lem :
    {icq : Icq} {is_pool : Bool} {ica_id : String} (ack : Ack icq is_pool ica_id) (s : Storage)
    (p w : IcaInfo) (admin : Addr)
    → load_ica ica_id s ≡ ok (p, w, admin)
    → acknowledge ack s
      ≡ ok (
        if is_pool
            then open_account ica_id (with_ack ack p) w admin s
            else open_account ica_id p (with_ack ack w) admin s,
        [],
      )
unfolding sudo_open_ack
acknowledge_lem ack s p w admin e = rw ack.parsed (rw ack.names (rw ack.account (rw e refl)))

-- Both accounts with their channels, and the pool they make.
unfoldable pub both_open : String → IcaInfo → IcaInfo → Addr → Storage → Storage
both_open ica_id p w admin s = record s {
  pools = save p.ica_addr (registered_pool ica_id admin) s.pools;
  info_of_ica_id = save ica_id (p, w, admin) s.info_of_ica_id;
}

-- The accounts alone.
abbrev with_accounts : String → IcaInfo → IcaInfo → Addr → Storage → Storage
with_accounts ica_id p w admin s = record s {
  info_of_ica_id = save ica_id (p, w, admin) s.info_of_ica_id;
}

if_false : {A : Type 0} {test : Bool} (x y : A) → test ≡ false → (if test then x else y) ≡ y
if_false x y e = rw e refl

if_true : {A : Type 0} {test : Bool} (x y : A) → test ≡ true → (if test then x else y) ≡ x
if_true x y e = rw e refl

open_account_closed :
    (ica_id : String) (p w : IcaInfo) (admin : Addr) (s : Storage)
    → (not (is_empty p.ica_addr) && not (is_empty w.ica_addr)) ≡ false
    → open_account ica_id p w admin s ≡ with_accounts ica_id p w admin s
unfolding open_account
open_account_closed ica_id p w admin s shut =
    ap (with_accounts ica_id p w admin)
      (if_false (save_pool p.ica_addr (registered_pool ica_id admin) s) s (ground (arith, shut)))

open_account_open :
    (ica_id : String) (p p' w w' : IcaInfo) (admin : Addr) (s : Storage)
    → is_empty p.ica_addr ≡ false
    → is_empty w.ica_addr ≡ false
    → has p.ica_addr s.pools ≡ false
    → open_account ica_id p w admin (with_accounts ica_id p' w' admin s)
      ≡ both_open ica_id p w admin s
unfolding open_account both_open
open_account_open ica_id p p' w w' admin s pool_open withdraw_open fresh =
    let s1 = with_accounts ica_id p' w' admin s in
    let opening =
      if_true (save_pool p.ica_addr (registered_pool ica_id admin) s1) s1
        (ground (arith, pool_open, withdraw_open, fresh)) in
    ap (with_accounts ica_id p w admin) opening
    ∙ ap
        (λ m. record (save_pool p.ica_addr (registered_pool ica_id admin) s) { info_of_ica_id = m })
        (save-save ica_id (p, w, admin) (p', w', admin) s.info_of_ica_id)

load_ica-with_accounts :
    (ica_id : String) (p w : IcaInfo) (admin : Addr) (s : Storage)
    → load_ica ica_id (with_accounts ica_id p w admin s) ≡ ok (p, w, admin)
unfolding load_ica
load_ica-with_accounts ica_id p w admin s =
    ap or_not_found (may_load-save_self ica_id (p, w, admin) s.info_of_ica_id)

-- The two acknowledgements of a registration succeed in either order, and lead to one storage: both
-- accounts hold their channels, and the pool is stored under the address of its account. Neither
-- account had an address before, and no pool was stored under the new one.
pub sudo_open_ack-any_order :
    {icq : Icq} {ica_id : String} (pool_ack : Ack icq true ica_id)
    (withdraw_ack : Ack icq false ica_id) (s : Storage) (p w : IcaInfo) (admin : Addr)
    → load_ica ica_id s ≡ ok (p, w, admin)
    → is_empty p.ica_addr ≡ true
    → is_empty w.ica_addr ≡ true
    → has pool_ack.version.address s.pools ≡ false
    → ((acknowledge pool_ack s >>= λ (s', _). acknowledge withdraw_ack s')
        ≡ ok (both_open ica_id (with_ack pool_ack p) (with_ack withdraw_ack w) admin s, []))
      × ((acknowledge withdraw_ack s >>= λ (s', _). acknowledge pool_ack s')
          ≡ ok (both_open ica_id (with_ack pool_ack p) (with_ack withdraw_ack w) admin s, []))
sudo_open_ack-any_order {ica_id = ica_id} pool_ack withdraw_ack s p w admin e pool_closed
      withdraw_closed fresh =
    let p' = with_ack pool_ack p in
    let w' = with_ack withdraw_ack w in
    let done : Storage → Outcome ContractError (Storage × Response) = λ t. ok (t, []) in
    let pool_first =
      acknowledge_lem pool_ack s p w admin e
      ∙ ap done (open_account_closed ica_id p' w admin s (ground (arith, withdraw_closed))) in
    let withdraw_first =
      acknowledge_lem withdraw_ack s p w admin e
      ∙ ap done (open_account_closed ica_id p w' admin s (ground (arith, pool_closed))) in
    let open_both = λ (p0 w0 : IcaInfo).
      open_account_open ica_id p' p0 w' w0 admin s pool_ack.addressed withdraw_ack.addressed
        fresh in
    (
      ap (λ r. r >>= λ (s', _). acknowledge withdraw_ack s') pool_first
          ∙ acknowledge_lem withdraw_ack (with_accounts ica_id p' w admin s) p' w admin
              (load_ica-with_accounts ica_id p' w admin s)
          ∙ ap done (open_both p' w),
      ap (λ r. r >>= λ (s', _). acknowledge pool_ack s') withdraw_first
          ∙ acknowledge_lem pool_ack (with_accounts ica_id p w' admin s) p w' admin
              (load_ica-with_accounts ica_id p w' admin s)
          ∙ ap done (open_both p w'),
    )
