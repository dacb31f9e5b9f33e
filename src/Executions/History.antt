-- ===== src/Executions/History.antt =====
-- The histories that backend/app/execution_store.py builds.
use mathlib.Core.Option.{some-injective}
use mathlib.Core.List.{append-nil, append_assoc}
use ap2web.Executions.Store.{
  EventType, ExecutionEvent, StoreError, already_finished, finish, finish_incomplete, finished,
  finishing, get, id_or, is_finished, latest, not_started, of_execution, start, started, starting,
}
use ap2web.Prelude.{
  Bool, Bool-cases, List, Option, Option-cases, Text, [], ap, arith, count-append, count_where, err,
  false, if◌then◌else◌, inl, inr, is_empty, none, not, ok, refl, some, subst, sym, text_eq_iff,
  text_eq_self, true, ℕ, ◌&&◌, ◌++◌, ◌+◌, ◌||◌, ◌∙◌, ◌∷◌, ◌≡◌, ◌≤◌, ◌⊎◌,
}

latest-append :
    (p : ExecutionEvent → Bool) (es : List ExecutionEvent) (x : ExecutionEvent)
    → latest p (es ++ (x ∷ [])) ≡ (if p x then some x else latest p es)
unfolding latest
latest-append p [] x = refl
latest-append p (e ∷ es) x = elim (Bool-cases (p x)) [
  | inl h ↦ rw (latest-append p es x, h) refl
  | inr h ↦ rw (latest-append p es x, h) refl
]

latest_holds :
    (p : ExecutionEvent → Bool) (es : List ExecutionEvent) {x : ExecutionEvent}
    → latest p es ≡ some x
    → p x ≡ true
unfolding latest
latest_holds p [] h = cc
latest_holds p (e ∷ es) {x} h = elim (Option-cases (latest p es)) [
  | inr (l, f) ↦ subst (λ y. p y ≡ true) (some-injective l x (rw f at h)) (latest_holds p es f)
  | inl f ↦ elim (Bool-cases (p e)) [
    | inl g ↦ subst (λ y. p y ≡ true) (some-injective e x (rw (f, g) at h)) g
    | inr g ↦ cc (rw (f, g) at h)
  ]
]

-- Finishing an execution is refused without effect, or it appends one terminal event, which carries
-- the type, the snapshot and the parameters of the execution's latest event and is what is returned;
-- this happens exactly if the arguments are not empty and the latest event is a started one.
pub finish-cases :
    (now : ℕ) (eid status artifact results : Text) (es : List ExecutionEvent)
    → let x = finish now eid status artifact results es in
      ((e : StoreError) × (x ≡ (err e, es)))
      ⊎ ((previous : ExecutionEvent) × (get eid es ≡ some previous)
          × (is_finished previous.event_type ≡ false)
          × (let row = finishing now eid status artifact results previous in
              x ≡ (ok (some row), es ++ (row ∷ []))))
unfolding finish get
finish-cases now eid status artifact results es =
    elim (Bool-cases (is_empty eid || (is_empty status || is_empty artifact))) [
      | inl e ↦ inl (finish_incomplete, rw e refl)
      | inr e ↦ elim (Option-cases (get eid es)) [
        | inl f ↦ inl (not_started, rw (e, f) refl)
        | inr (previous, f) ↦ elim (Bool-cases (is_finished previous.event_type)) [
          | inl g ↦ inl (already_finished, rw (e, f, g) refl)
          | inr g ↦
              let row = finishing now eid status artifact results previous in
              inr (
                previous,
                f,
                g,
                rw (e, f, g) (rw (latest-append (of_execution eid) es row, text_eq_self eid) refl),
              )
        ]
      ]
    ]

-- The calls on the store.
pub data Step (es : List ExecutionEvent) : List ExecutionEvent → Type 0 where
  starts :
      (fresh : Text) (now : ℕ) (execution_type snapshot_hash parameters : Text)
      (given : Option Text)
      → Step es (start fresh now execution_type snapshot_hash parameters given es).1
  finishes :
      (now : ℕ) (eid status artifact results : Text)
      → Step es (finish now eid status artifact results es).1

pub data Run (es : List ExecutionEvent) : List ExecutionEvent → Type 0 where
  here : Run es es
  next : {fs gs : List ExecutionEvent} → Run es fs → Step fs gs → Run es gs

abbrev pub is_event : Text → EventType → ExecutionEvent → Bool
is_event eid started e = of_execution eid e && not (is_finished e.event_type)
is_event eid finished e = of_execution eid e && is_finished e.event_type

abbrev pub starts_of : Text → List ExecutionEvent → ℕ
starts_of eid es = count_where (is_event eid started) es

abbrev pub finishes_of : Text → List ExecutionEvent → ℕ
finishes_of eid es = count_where (is_event eid finished) es

-- Terminal events do not outnumber starts, and an open execution has at least one start more.
abbrev pub is_open : Option ExecutionEvent → ℕ
is_open none = 0
is_open (some e) = if is_finished e.event_type then 0 else 1

abbrev pub IsBalanced : List ExecutionEvent → Type 0
IsBalanced es = (eid : Text) → finishes_of eid es + is_open (get eid es) ≤ starts_of eid es

append-IsBalanced :
    (es : List ExecutionEvent) (row : ExecutionEvent)
    → IsBalanced es
    → (is_finished row.event_type ≡ true → is_open (get row.execution_id es) ≡ 1)
    → IsBalanced (es ++ (row ∷ []))
unfolding get
append-IsBalanced es row balanced open_before eid =
    rw
      (
        count-append (is_event eid finished) es (row ∷ []),
        count-append (is_event eid started) es (row ∷ []),
        latest-append (of_execution eid) es row,
      )
      (elim (Bool-cases (of_execution eid row)) [
        | inr e ↦ rw e (omega (arith, balanced eid))
        | inl e ↦ elim (Bool-cases (is_finished row.event_type)) [
          | inl f ↦ rw (e, f) (omega (arith, balanced eid, open_at e f))
          | inr f ↦ rw (e, f) (omega (arith, balanced eid))
        ]
      ])
  where
    open_at :
        of_execution eid row ≡ true → is_finished row.event_type ≡ true → is_open (get eid es) ≡ 1
    open_at e f =
        subst (λ t. is_open (get t es) ≡ 1) ((text_eq_iff row.execution_id eid).0 e) (open_before f)

start-IsBalanced :
    (fresh : Text) (now : ℕ) (execution_type snapshot_hash parameters : Text) (given : Option Text)
    (es : List ExecutionEvent)
    → IsBalanced es
    → IsBalanced (start fresh now execution_type snapshot_hash parameters given es).1
unfolding start
start-IsBalanced fresh now execution_type snapshot_hash parameters given es h =
    elim (Bool-cases (is_empty execution_type || is_empty snapshot_hash)) [
      | inl e ↦ rw e h
      | inr e ↦ rw e (append-IsBalanced es _ h (λ f. cc f))
    ]

finish-IsBalanced :
    (now : ℕ) (eid status artifact results : Text) (es : List ExecutionEvent)
    → IsBalanced es
    → IsBalanced (finish now eid status artifact results es).1
finish-IsBalanced now eid status artifact results es h =
    elim (finish-cases now eid status artifact results es) [
      | inl (e, same) ↦ rw same h
      | inr (previous, found, live, same) ↦
          rw same (append-IsBalanced es _ h (λ f. rw found (rw live refl)))
    ]

step-IsBalanced : {es fs : List ExecutionEvent} → Step es fs → IsBalanced es → IsBalanced fs
step-IsBalanced {es} (Step.starts fresh now t snapshot ps given) h =
    start-IsBalanced fresh now t snapshot ps given es h
step-IsBalanced {es} (Step.finishes now eid status artifact results) h =
    finish-IsBalanced now eid status artifact results es h

-- Every history of calls keeps the table balanced, if it was so before: the terminal events of an
-- execution do not outnumber its starts, and an execution whose latest event is a start has at least
-- one start more than terminal events.
pub Run-IsBalanced : {es fs : List ExecutionEvent} → Run es fs → IsBalanced es → IsBalanced fs
Run-IsBalanced here h = h
Run-IsBalanced (next r c) h = step-IsBalanced c (Run-IsBalanced r h)

start_appends :
    (fresh : Text) (now : ℕ) (execution_type snapshot_hash parameters : Text) (given : Option Text)
    (es : List ExecutionEvent)
    → (behind : List ExecutionEvent) × ((start fresh now execution_type snapshot_hash parameters
          given es).1
        ≡ es ++ behind)
unfolding start
start_appends fresh now execution_type snapshot_hash parameters given es =
    elim (Bool-cases (is_empty execution_type || is_empty snapshot_hash)) [
      | inl e ↦ ([], rw e (sym (append-nil es)))
      | inr e ↦
          (starting now (id_or given fresh) execution_type snapshot_hash parameters ∷ [], rw e refl)
    ]

finish_appends :
    (now : ℕ) (eid status artifact results : Text) (es : List ExecutionEvent)
    → (behind : List ExecutionEvent) × ((finish now eid status artifact results es).1
        ≡ es ++ behind)
finish_appends now eid status artifact results es =
    elim (finish-cases now eid status artifact results es) [
      | inl (e, same) ↦ ([], rw same (sym (append-nil es)))
      | inr (previous, found, live, same) ↦
          (finishing now eid status artifact results previous ∷ [], rw same refl)
    ]

step_appends :
    {es fs : List ExecutionEvent}
    → Step es fs
    → (behind : List ExecutionEvent) × (fs ≡ es ++ behind)
step_appends {es} (Step.starts fresh now t snapshot ps given) =
    start_appends fresh now t snapshot ps given es
step_appends {es} (Step.finishes now eid status artifact results) =
    finish_appends now eid status artifact results es

-- The table is append-only: every history of calls keeps the rows that were there, in their order,
-- and only adds rows behind them.
pub Run-append :
    {es fs : List ExecutionEvent} → Run es fs → (behind : List ExecutionEvent) × (fs ≡ es ++ behind)
Run-append {es} here = ([], sym (append-nil es))
Run-append {es} (next r c) =
    let (b, first_part) = Run-append r in
    let (b', last_part) = step_appends c in
    (b ++ b', last_part ∙ ap (λ xs. xs ++ b') first_part ∙ append_assoc es b b')
