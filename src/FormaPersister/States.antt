-- ===== src/FormaPersister/States.antt =====
-- What the state of a command (overallCommandState) says of its updates, in every stored command.
use formae.Prelude.{
  ◌≡◌, ◌⊎◌, ◌↔◌, inl, inr, subst, Bool, true, false, not, some, List, ◌∷◌, [], Text, any, ite,
  text_discrete, arith, Option-cases, some_injective, if◌then◌else◌,
}
use formae.ResourceUpdate.{UpdateState, ResourceUpdate}
use formae.FormaPersister.{
  CommandState, FormaCommand, overall_command_state, is_final, is_unsuccessful,
}
use formae.FormaPersister.Calls.{
  Datastore, store_forma_command, store, get_forma_command, change_command,
}

abbrev pub Every : (ResourceUpdate → Type 0) → List ResourceUpdate → Type 0
Every P [] = Unit {0}
Every P (u ∷ us) = P u × Every P us

abbrev pub Some : (ResourceUpdate → Type 0) → List ResourceUpdate → Type 0
Some P [] = ⊥
Some P (u ∷ us) = P u ⊎ Some P us

abbrev pub IsFinal : ResourceUpdate → Type 0
IsFinal u = is_final u.state ≡ true

any-not-IsFinal :
    (us : List ResourceUpdate) → (any (λ u. not (is_final u.state)) us ≡ false) ↔ Every IsFinal us
any-not-IsFinal [] = ground arith
any-not-IsFinal (u ∷ us) = ground (arith, any-not-IsFinal us)

any-unsuccessful :
    (us : List ResourceUpdate)
    → (any (λ u. is_unsuccessful u.state) us ≡ true)
      ↔ Some (λ u. (u.state ≡ UpdateState.failed) ⊎ (u.state ≡ UpdateState.rejected)) us
any-unsuccessful [] = ground arith
any-unsuccessful (u ∷ us) = ground (arith, any-unsuccessful us)

any-not-IsFinal_true :
    (us : List ResourceUpdate)
    → (any (λ u. not (is_final u.state)) us ≡ true) ↔ Some (λ u. is_final u.state ≡ false) us
any-not-IsFinal_true [] = ground arith
any-not-IsFinal_true (u ∷ us) = ground (arith, any-not-IsFinal_true us)

Every-success :
    (us : List ResourceUpdate)
    → Every (λ u. u.state ≡ UpdateState.success) us ↔ (
        (any (λ u. not (is_final u.state)) us ≡ false)
        × (any (λ u. is_unsuccessful u.state) us ≡ false))
Every-success [] = ground arith
Every-success (u ∷ us) = ground (arith, Every-success us)

unfoldable pub combined : Bool → Bool → CommandState
combined pend bad =
    if pend
    then CommandState.in_progress
    else if bad
    then CommandState.failed
    else CommandState.success

combined-cases :
    (pend bad : Bool)
    → ((combined pend bad ≡ CommandState.success) ↔ ((pend ≡ false) × (bad ≡ false)))
      × ((combined pend bad ≡ CommandState.failed) ↔ ((pend ≡ false) × (bad ≡ true)))
      × ((combined pend bad ≡ CommandState.in_progress) ↔ (pend ≡ true))
unfolding combined
combined-cases true true = ground arith
combined-cases true false = ground arith
combined-cases false true = ground arith
combined-cases false false = ground arith

-- A command is Success exactly when all its updates are successful, Failed exactly when all are final and
-- one is failed or rejected, and InProgress exactly when one is not final.
pub overall_command_state-cases :
    (us : List ResourceUpdate)
    → ((overall_command_state us ≡ CommandState.success)
        ↔ Every (λ u. u.state ≡ UpdateState.success) us)
      × ((overall_command_state us ≡ CommandState.failed) ↔ (
          Every IsFinal us
          × Some (λ u. (u.state ≡ UpdateState.failed) ⊎ (u.state ≡ UpdateState.rejected)) us))
      × ((overall_command_state us ≡ CommandState.in_progress)
          ↔ Some (λ u. is_final u.state ≡ false) us)
unfolding overall_command_state combined
overall_command_state-cases us =
    let pend = any (λ u. not (is_final u.state)) us in
    let bad = any (λ u. is_unsuccessful u.state) us in
    let (s, f, p) = combined-cases pend bad in
    let e = Every-success us in
    let n = any-not-IsFinal us in
    let t = any-not-IsFinal_true us in
    let b = any-unsuccessful us in
    (
      ((λ q. e.1 (s.0 q)), (λ q. s.1 (e.0 q))),
      ((λ q. (n.0 (f.0 q).0, b.0 (f.0 q).1)), (λ q. f.1 (n.1 q.0, b.1 q.1))),
      ((λ q. t.0 (p.0 q)), (λ q. p.1 (t.1 q))),
    )

-- The state of a stored command is the one of its updates, or it has not started.
abbrev pub IsDerived : FormaCommand → Type 0
IsDerived c =
    (c.state ≡ CommandState.not_started) ⊎ (c.state ≡ overall_command_state c.resource_updates)

pub record IsConsistent (d : Datastore) : Type 0 where
  pub at_its_id : (k : Text) (c : FormaCommand) → d k ≡ some c → c.id ≡ k
  pub derived : (k : Text) (c : FormaCommand) → d k ≡ some c → IsDerived c

pub store_forma_command-IsConsistent :
    (c : FormaCommand) (d : Datastore)
    → IsConsistent d
    → IsDerived c
    → IsConsistent (store_forma_command c d)
unfolding store_forma_command
store_forma_command-IsConsistent c d s h = record {
  at_its_id = λ k c' e. at c' k (text_discrete c.id k) e (s.at_its_id k c');
  derived = λ k c' e. der c' k (text_discrete c.id k) e (s.derived k c');
}
  where
    at :
        (c' : FormaCommand) (k : Text) (q : Dec (c.id ≡ k))
        → ite q (some c) (d k) ≡ some c'
        → (d k ≡ some c' → c'.id ≡ k)
        → c'.id ≡ k
    at c' k (yes q) e g = cc
    at c' k (no q) e g = g e

    der :
        (c' : FormaCommand) (k : Text) (q : Dec (c.id ≡ k))
        → ite q (some c) (d k) ≡ some c'
        → (d k ≡ some c' → IsDerived c')
        → IsDerived c'
    der c' k (yes q) e g = subst IsDerived (some_injective e) h
    der c' k (no q) e g = g e

-- A loaded command belongs to its id, and the change keeps the id and derives the state.
pub change_command-IsConsistent :
    (readable writable : Bool) (change : FormaCommand → FormaCommand) (id : Text) (d : Datastore)
    → IsConsistent d
    → ((c : FormaCommand) → d id ≡ some c → IsDerived (change c))
    → IsConsistent (change_command writable change (get_forma_command readable id d) d).0
unfolding change_command get_forma_command store
change_command-IsConsistent false writable change id d s h = s
change_command-IsConsistent true writable change id d s h = elim (Option-cases (d id)) [
  | inl e ↦ rw e s
  | inr (c, e) ↦ rw e (stored writable c (h c e))
]
  where
    stored :
        (writable : Bool) (c : FormaCommand)
        → IsDerived (change c)
        → IsConsistent (store writable (change c) d).0
    stored true c g = store_forma_command-IsConsistent (change c) d s g
    stored false c g = s
