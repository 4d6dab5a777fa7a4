-- ===== src/FormaPersister/Consistency.antt =====
-- Every call of the persister (forma_command_persister.go) keeps the stored commands consistent.
use formae.Prelude.{
  ℕ, ◌≡◌, inl, inr, refl, sym, ◌∙◌, Bool, true, false, Option, none, some, Text, Option-cases,
  Bool-cases, ltb,
}
use formae.Model.Resource.{Resource}
use formae.ResourceUpdate.{UpdateState}
use formae.FormaPersister.{FormaCommand, update_from_progress, mark_complete, bulk_update}
use formae.FormaPersister.Calls.{
  Datastore, Message, handle_call, store, get_forma_command, store_hashed, hash_command,
  mark_forma_command_complete, store_new_forma_command, load_forma_command,
  update_resource_progress, mark_resources_as_rejected, mark_resources_as_failed,
  mark_resource_update_as_complete, mark_forma_command_as_complete, bulk,
}
use formae.FormaPersister.States.{
  IsConsistent, IsDerived, store_forma_command-IsConsistent, change_command-IsConsistent,
}
use formae.FormaPersister.Hashing.{hash_command-same}

store-IsConsistent :
    (writable : Bool) (c : FormaCommand) (d : Datastore)
    → IsConsistent d
    → IsDerived c
    → IsConsistent (store writable c d).0
unfolding store
store-IsConsistent true c d s h = store_forma_command-IsConsistent c d s h
store-IsConsistent false c d s h = s

module _ (hash : Resource → Option Resource) where
  store_hashed-IsConsistent :
      (writable : Bool) (c : FormaCommand) (d : Datastore) (r : Option (FormaCommand × ℕ))
      → hash_command hash c ≡ r
      → IsConsistent d
      → IsDerived c
      → IsConsistent (store_hashed writable r d).0
  unfolding store_hashed
  store_hashed-IsConsistent writable c d none e s h = s
  store_hashed-IsConsistent writable c d (some (c', n)) e s h = elim (Bool-cases (ltb 0 n)) [
    | inl p ↦ rw p (store-IsConsistent writable c' d s (derived h))
    | inr p ↦ rw p s
  ]
    where
      derived : IsDerived c → IsDerived c'
      derived (inl q) = (let (i, st, o) = hash_command-same hash c c' n e in inl (st ∙ q))
      derived (inr q) = let (i, st, o) = hash_command-same hash c c' n e in inr (st ∙ (q ∙ sym o))

  mark_forma_command_complete-IsConsistent :
      (writable : Bool) (o : Option FormaCommand) (d : Datastore)
      → IsConsistent d
      → ((c : FormaCommand) → o ≡ some c → IsDerived c)
      → IsConsistent (mark_forma_command_complete hash writable o d).0
  unfolding mark_forma_command_complete
  mark_forma_command_complete-IsConsistent writable none d s h = s
  mark_forma_command_complete-IsConsistent writable (some c) d s h =
      store_hashed-IsConsistent writable c d (hash_command hash c) refl s (h c refl)

  answer_loaded-same :
      (readable writable : Bool) (id : Text) (d : Datastore)
      → (handle_call hash readable writable (load_forma_command id) d).0 ≡ d
  unfolding handle_call
  answer_loaded-same readable writable id d =
      elim (Option-cases (get_forma_command readable id d)) [
        | inl e ↦ rw e refl
        | inr (c, e) ↦ rw e refl
      ]

  -- A command that is stored as new has not started, or its state is the one of its updates.
  abbrev pub NewIsDerived : Message → Type 0
  NewIsDerived (store_new_forma_command c) = IsDerived c
  NewIsDerived _ = Unit {0}

  -- Every call of the persister, whether the datastore can be read or written or not, keeps each stored
  -- command under its id, and its state is NotStarted or the overall state of its updates, provided
  -- that a command which is stored as new comes that way.
  pub handle_call-IsConsistent :
      (readable writable : Bool) (m : Message) (d : Datastore)
      → NewIsDerived m
      → IsConsistent d
      → IsConsistent (handle_call hash readable writable m d).0
  unfolding handle_call get_forma_command update_from_progress mark_complete bulk_update
  handle_call-IsConsistent readable writable (store_new_forma_command c) d n s =
      store-IsConsistent writable c d s n
  handle_call-IsConsistent readable writable (load_forma_command id) d n s =
      rw (answer_loaded-same readable writable id d) s
  handle_call-IsConsistent readable writable (update_resource_progress m) d n s =
      change_command-IsConsistent readable writable (update_from_progress m) m.command_id d s
        (λ c e. inr refl)
  handle_call-IsConsistent readable writable (mark_resources_as_rejected m) d n s =
      change_command-IsConsistent readable writable (bulk_update (bulk UpdateState.rejected m))
        m.command_id d s (λ c e. inr refl)
  handle_call-IsConsistent readable writable (mark_resources_as_failed m) d n s =
      change_command-IsConsistent readable writable (bulk_update (bulk UpdateState.failed m))
        m.command_id d s (λ c e. inr refl)
  handle_call-IsConsistent readable writable (mark_resource_update_as_complete m) d n s =
      change_command-IsConsistent readable writable (mark_complete m) m.command_id d s
        (λ c e. inr refl)
  handle_call-IsConsistent true writable (mark_forma_command_as_complete id) d n s =
      mark_forma_command_complete-IsConsistent writable (d id) d s (s.derived id)
  handle_call-IsConsistent false writable (mark_forma_command_as_complete id) d n s = s
