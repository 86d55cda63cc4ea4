-- ===== src/Objects/Sets/Safe.antt =====
-- The operations on sets keep the table sound.
use hyperkv.Base.{Str, ◌==◌, Safe, Safe-bind, Safe-option, Safe-if}
use hyperkv.HTable.{write_value, ht_base_size}
use hyperkv.HTable.Safe.{htable_insert-Safe, htable_del-Safe}
use hyperkv.HTable.Sound.{search-Safe, exists-Safe, locate_loop-Safe, write_value-IsSound}
use hyperkv.Objects.Safe.{as_set-Safe}
use hyperkv.Objects.Sets.{
  htable_update_set, htable_sadd, htable_sismember, htable_srem, htable_smembers,
}
use hyperkv.Set.Safe.{set_init-Safe, set_add-Safe, set_rem-Safe, set_ismember-Safe}
use hyperkv.Value.{set_t, Store}
use hyperkv.Value.Safe.{IsWhole, IsSafeStore}

module _ (ht : Store) (sound : IsSafeStore ht) (key : Str) where
  htable_update_set-Safe :
      (value : Str) → Safe (λ r. IsSafeStore r.0) (htable_update_set ht key value)
  unfolding htable_update_set
  htable_update_set-Safe value = Safe-bind _ (locate_loop-Safe sound key ht.size 0) (
      Safe-option _ _ _ (λ _. Safe.returns _ sound)
        λ x found. Safe-bind _ (as_set-Safe x.1 found.2) λ tmp whole.
          Safe-bind _ (set_add-Safe tmp whole value) λ r whole'.
            Safe.returns _ (write_value-IsSound sound key x.0 x.1 (set_t r.0) found whole'))

  pub htable_sadd-Safe : (value : Str) → Safe (λ r. IsSafeStore r.0) (htable_sadd ht key value)
  unfolding htable_sadd
  htable_sadd-Safe value = Safe-bind _ (exists-Safe sound key) λ exists _.
      Safe-if _ _ exists (λ _. htable_update_set-Safe value)
        λ _.
          (Safe-bind _ (set_init-Safe ht_base_size) λ new_st fresh.
            Safe-bind _ (set_add-Safe new_st fresh value) λ filled whole.
              Safe-bind _ (htable_insert-Safe IsWhole ht sound key (set_t filled.0) whole)
                λ ht' sound'. Safe.returns _ sound')

  pub htable_sismember-Safe : (value : Str) → Safe (λ _. Unit) (htable_sismember ht key value)
  unfolding htable_sismember
  htable_sismember-Safe value = Safe-bind _ (search-Safe sound key) (
      Safe-option _ _ _ (λ _. Safe.returns _ tt)
        λ x found.
          Safe-bind _ (as_set-Safe x.1 found.2)
            λ tmp_st whole. set_ismember-Safe tmp_st whole value)

  pub htable_srem-Safe : (value : Str) → Safe (λ r. IsSafeStore r.0) (htable_srem ht key value)
  unfolding htable_srem
  htable_srem-Safe value = Safe-bind _ (search-Safe sound key) (
      Safe-option _ _ _ (λ _. Safe.returns _ sound)
        λ x found. Safe-bind _ (as_set-Safe x.1 found.2) λ tmp_st whole.
          Safe-bind _ (set_rem-Safe tmp_st whole value) λ r whole'.
            let ht' = write_value ht key x.0 (set_t r.0) in
            let sound' : IsSafeStore ht' =
              write_value-IsSound sound key x.0 x.1 (set_t r.0) found whole' in
            Safe-if _ _ (r.0.used == 0)
              (λ _.
                Safe-bind _ (htable_del-Safe IsWhole ht' sound' key)
                  λ _ sound''. Safe.returns _ sound'')
              (λ _. Safe.returns _ sound'))

  pub htable_smembers-Safe : Safe (λ _. Unit) (htable_smembers ht key)
  unfolding htable_smembers
  htable_smembers-Safe = Safe-bind _ (search-Safe sound key) (
      Safe-option _ _ _ (λ _. Safe.returns _ tt)
        λ x found. Safe-bind _ (as_set-Safe x.1 found.2) λ tmp_st whole. Safe.returns _ tt)
