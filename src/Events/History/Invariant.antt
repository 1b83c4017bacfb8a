-- ===== src/Events/History/Invariant.antt =====
-- What the history of pkg/events/action_history.go keeps.
use Prim.Native.Nat.{min}
use controlled_job.Base.{
  ℕ, zero, suc, ◌≤◌, ◌≡◌, subst, refl, false, Option, none, some, List, [], ◌∷◌, length, take,
  length-take, arith, Bool-cases, inl, inr, ◌⊎◌,
}
use controlled_job.Api.{ActionHistoryEntry, ControlledJobStatus}
use controlled_job.Events.History.{
  is_same_action, prepend_and_truncate_if_needed, add_action_history_entry_impl,
  add_action_history_entry_ignoring_duplicates,
}

abbrev pub latest : List ActionHistoryEntry → Option ActionHistoryEntry
latest [] = none
latest (a ∷ rest) = some a

-- No entry repeats the one after it, timestamps aside.
abbrev pub HasNoRepeats : List ActionHistoryEntry → Type 0
HasNoRepeats [] = Unit {0}
HasNoRepeats (a ∷ rest) = (is_same_action (latest rest) a ≡ false) × HasNoRepeats rest

pub record IsHistory (status : ControlledJobStatus) : Type 0 where
  pub bounded : length status.action_history ≤ 16
  pub recent : status.most_recent_action ≡ latest status.action_history
  pub changing : HasNoRepeats status.action_history

latest-take :
    (n : ℕ) (rest : List ActionHistoryEntry)
    → (latest (take n rest) ≡ none) ⊎ (latest (take n rest) ≡ latest rest)
latest-take zero rest = inl refl
latest-take (suc n) [] = inl refl
latest-take (suc n) (a ∷ rest) = inr refl

not_repeated :
    (o : Option ActionHistoryEntry) (rest : List ActionHistoryEntry) (a : ActionHistoryEntry)
    → (o ≡ none) ⊎ (o ≡ latest rest)
    → is_same_action (latest rest) a ≡ false
    → is_same_action o a ≡ false
unfolding is_same_action
not_repeated o rest a (inl e) h = ground (arith, e)
not_repeated o rest a (inr e) h = ground (arith, e)

take-HasNoRepeats :
    (n : ℕ) (rest : List ActionHistoryEntry) → HasNoRepeats rest → HasNoRepeats (take n rest)
take-HasNoRepeats zero rest h = tt
take-HasNoRepeats (suc n) [] h = tt
take-HasNoRepeats (suc n) (a ∷ rest) h = (
  not_repeated (latest (take n rest)) rest a (latest-take n rest) h.0,
  take-HasNoRepeats n rest h.1,
)

added-IsHistory :
    (status : ControlledJobStatus) (action : ActionHistoryEntry)
    → IsHistory status
    → is_same_action status.most_recent_action action ≡ false
    → IsHistory (record status {
      most_recent_action = some action;
      action_history = action ∷ take (min (length status.action_history) 15) status.action_history;
    })
added-IsHistory status action h new = record {
  bounded =
      omega (arith, length-take (min (length status.action_history) 15) status.action_history);
  recent = refl;
  changing = (
    not_repeated _ status.action_history action
        (latest-take (min (length status.action_history) 15) status.action_history)
        (subst (λ (o : Option ActionHistoryEntry). is_same_action o action ≡ false) h.recent new),
    take-HasNoRepeats (min (length status.action_history) 15) status.action_history h.changing,
  );
}

-- A history of at most 16 entries whose first is the most recent action, and in which no entry
-- repeats the next one, stays such a history when an action is recorded.
pub add_action_history_entry-IsHistory :
    (status : ControlledJobStatus) (action : ActionHistoryEntry)
    → IsHistory status
    → IsHistory (add_action_history_entry_ignoring_duplicates status action)
unfolding add_action_history_entry_ignoring_duplicates add_action_history_entry_impl
    prepend_and_truncate_if_needed
add_action_history_entry-IsHistory status action h =
    elim (Bool-cases (is_same_action status.most_recent_action action)) [
      | inl e ↦ rw e h
      | inr e ↦ rw e (added-IsHistory status action h e)
    ]
