-- ===== src/Engine/GateShut.antt =====
-- The settle gate in a pass of `_persist` (backend/lftpweb/core/engine.py): while it is shut, no
-- row comes to say that it is downloaded.
use mathlib.Core.Bool.{false≢true}
use lftpweb.Absence.Grace.{resolve_absence-GraceOver}
use lftpweb.Common.{
  ℕ, ◌≡◌, refl, sym, ◌∙◌, ap, subst, ◌⊎◌, inl, inr, Bool, true, false, Option, none, some, List,
  String, arith,
}
use lftpweb.Common.Dict.{lookup}
use lftpweb.Item.{Item, ItemState, is_downloaded, removed_local}
use lftpweb.Absence.{Override, resolve_vanished}
use lftpweb.Settle.{SettleRecord, is_settled}
use lftpweb.Reconcile.Node.{ReconciledNode}
use lftpweb.Engine.Persist.{
  Pass, open_row, reading_for, settled_reading, gated_reading, gate_shut, settle_record_for,
}
use lftpweb.Engine.Sweep.{both_gone, swept, resolve_prev_state, vanished_reading, persist}
use lftpweb.Engine.Kept.{Holds, Vanishes, KeptBy, Unprotected}
use lftpweb.Engine.Rows.{persist-Holds}

-- The item's settle record in this pass has not settled, and the gate is switched on.
pub record GateShut (pass : Pass) (k : String) : Type 0 where
  pub enabled : pass.settle_enabled ≡ true
  pub current : SettleRecord
  pub at_path : (settle_record_for pass k).0 ≡ some current
  pub unsettled : is_settled (some current) pass.now ≡ false

-- The row says that it is downloaded only if it said so before.
abbrev pub NotNewlyDownloaded : Item → Item → Type 0
NotNewlyDownloaded prev item =
    is_downloaded item.state ≡ true → is_downloaded (resolve_prev_state prev) ≡ true

gated_not_downloaded :
    (b : Bool) (r : ItemState × Option ℕ)
    → b ≡ true
    → is_downloaded (gated_reading b r).state ≡ false
unfolding gated_reading
gated_not_downloaded false r e = cc
gated_not_downloaded true (s, m) e = ground arith

GateShut-gate_shut :
    (pass : Pass) (k : String) (g : GateShut pass k) → gate_shut pass (some g.current) ≡ true
GateShut-gate_shut pass k g = rw (g.enabled, g.unsettled) refl

same_or_removed :
    (prev s : ItemState) (A : Type 0)
    → (s ≡ prev) ⊎ (A × (s ≡ removed_local))
    → is_downloaded s ≡ true
    → is_downloaded prev ≡ true
same_or_removed prev s A (inl e) h = sym (ap (λ x. is_downloaded x) e) ∙ h
same_or_removed prev s A (inr (a, e)) h =
    absurd (false≢true (sym (ap (λ x. is_downloaded x) e) ∙ h))

resolve_vanished_downloaded :
    (p s : ItemState) → resolve_vanished p ≡ some s → is_downloaded s ≡ false
unfolding resolve_vanished
resolve_vanished_downloaded p s e = ground arith

both_gone_downloaded : (s : ItemState) → is_downloaded (both_gone s) ≡ true → is_downloaded s ≡ true
both_gone_downloaded s h = ground arith

pair_state :
    (a b : ItemState) (m n : Option ℕ) → ◌≡◌ {A = Override} (some (a, m)) (some (b, n)) → a ≡ b
pair_state a b m n e = cc

swept_downloaded :
    (o : Override) (f : Option ItemState) (t s : ItemState) (m : Option ℕ)
    → ((s' : ItemState) (m' : Option ℕ)
        → o ≡ some (s', m')
        → is_downloaded s' ≡ true
        → is_downloaded t ≡ true)
    → ((s' : ItemState) → f ≡ some s' → is_downloaded s' ≡ false)
    → swept o f ≡ some (s, m)
    → is_downloaded s ≡ true
    → is_downloaded t ≡ true
swept_downloaded (some (s', m')) f t s m a b e h =
    a s' m' refl
      (both_gone_downloaded s' (ap (λ x. is_downloaded x) (pair_state (both_gone s') s m' m e) ∙ h))
swept_downloaded none (some s') t s m a b e h =
    absurd
      (false≢true (sym (b s' refl) ∙ (ap (λ x. is_downloaded x) (pair_state s' s none m e) ∙ h)))
swept_downloaded none none t s m a b e h = cc

Vanishes-downloaded :
    (pass : Pass) (k : String) (prev : Item) (s : ItemState) (m : Option ℕ)
    → Vanishes pass k prev s m
    → is_downloaded s ≡ true
    → is_downloaded (resolve_prev_state prev) ≡ true
unfolding vanished_reading
Vanishes-downloaded pass k prev _ _ (Vanishes.spent d) h = absurd (false≢true h)
Vanishes-downloaded pass k prev _ _ (Vanishes.orphaned d) h = absurd (false≢true h)
Vanishes-downloaded pass k prev s m (Vanishes.read d e) h =
    swept_downloaded _ (resolve_vanished prev.state) (resolve_prev_state prev) s m
      (λ s' m' q g. same_or_removed _ s' _ (resolve_absence-GraceOver _ _ _ _ _ _ _ _ s' m' q) g)
      (λ s' q. resolve_vanished_downloaded prev.state s' q) e h

resolve_prev_downloaded :
    (prev : Item) → is_downloaded prev.state ≡ true → is_downloaded (resolve_prev_state prev) ≡ true
resolve_prev_downloaded prev h = ground arith

NotNewlyDownloaded-KeptBy :
    (pass : Pass) (k : String) (prev : Item)
    → Unprotected pass k
    → GateShut pass k
    → KeptBy pass k prev (NotNewlyDownloaded prev)
unfolding open_row reading_for
NotNewlyDownloaded-KeptBy pass k prev u g = record {
  by_protected = λ node item b h. absurd (false≢true (sym u ∙ b));
  by_open = λ node settle item _ r h e. absurd (
      false≢true (
        sym (
          gated_not_downloaded (gate_shut pass settle) (settled_reading pass node (some prev)) (
            subst (λ x. gate_shut pass x ≡ true) (sym g.at_path ∙ r) (GateShut-gate_shut pass k g)))
        ∙ e));
  by_sweep = λ s m item _ v h. Vanishes-downloaded pass k prev s m v;
}

-- While the gate of an unprotected item is shut, a scan does not make its row say that it is
-- downloaded, whatever the two trees show: the row says so afterwards only if it did before, or
-- if it was the local copy of a cleaned item.
pub gate_keeps_out :
    (pass : Pass) (k : String) (prev : Item) (next_id : ℕ) (nodes : List ReconciledNode)
    → lookup k pass.previous ≡ some prev
    → Unprotected pass k
    → GateShut pass k
    → Holds k (NotNewlyDownloaded prev) (persist pass next_id nodes).items
gate_keeps_out pass k prev next_id nodes there u g =
    persist-Holds pass k prev (NotNewlyDownloaded prev) next_id nodes
      (NotNewlyDownloaded-KeptBy pass k prev u g) there (resolve_prev_downloaded prev)
