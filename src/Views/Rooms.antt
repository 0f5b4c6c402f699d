-- ===== src/Views/Rooms.antt =====
-- number.py: the number that is set is the one that is shown, and it is in its range.
use ha_vacuum_planner.Base.{
  >>=-eq-ok, All, Bool-cases, List, Option, String, [], ap, arith, inl, inr, int_beq, int_beq_iff,
  int_eq, leℤ, list_beq, map_result, nat_eq, none, ok, pos, refl, some, string_eq, subst, sym, true,
  ℤ, ◌==◌, ◌>>=◌, ◌∙◌, ◌∷◌, ◌≡◌,
}
use ha_vacuum_planner.Models.{
  DateTime, PlanRevision, PlannerState, RoomPlan, Value, block_guarantee_eq, block_kind_eq,
  block_state_eq, dispatch_strategy_eq, float, integer, is_finite, job_state_eq, make_revision,
  make_state, mode_eq, option_beq, preferred_mode_eq, room_beq,
}
use ha_vacuum_planner.Entities.{
  PlanField, float_integer, native_value, next_creation, priority_field, replace_in_room,
  replace_room_value, update_number, vacuum_and_mop_interval, vacuum_interval,
}
use ha_vacuum_planner.Laws.Constructors.{make_revision-eq, make_room-eq, make_state-eq}
use ha_vacuum_planner.Safety.Graph.{All-unit}
use ha_vacuum_planner.Safety.Rewrites.{map_result-All}

-- the numbers that a field takes
abbrev pub Takes : PlanField → ℤ → Type 0
Takes priority_field n = (leℤ (pos 0) n ≡ true) × (leℤ n (pos 2147483647) ≡ true)
Takes vacuum_interval n = (leℤ (pos 1) n ≡ true) × (leℤ n (pos 365) ≡ true)
Takes vacuum_and_mop_interval n = (leℤ (pos 1) n ≡ true) × (leℤ n (pos 365) ≡ true)

-- the value is this whole number
abbrev pub IsWhole : Value → ℤ → Type 0
IsWhole (integer m) n = m ≡ n
IsWhole (float bits) n = (is_finite bits ≡ true) × (float_integer bits ≡ some n)
IsWhole _ n = ⊥

-- a room of the area shows the number
abbrev pub ShowsNumber : String → PlanField → ℤ → RoomPlan → Type 0
ShowsNumber area plan_field n q = (q.area_id == area) ≡ true → native_value plan_field q ≡ some n

replace_room_value-shown :
    (plan_field : PlanField) (n : ℤ) (p q : RoomPlan)
    → replace_room_value plan_field n p ≡ ok q
    → native_value plan_field q ≡ some n
unfolding replace_room_value native_value
replace_room_value-shown vacuum_interval n p q h =
    ap (λ (x : RoomPlan). some x.vacuum_interval_days) (make_room-eq _ h)
replace_room_value-shown vacuum_and_mop_interval n p q h =
    ap (λ (x : RoomPlan). x.vacuum_and_mop_interval_days) (make_room-eq _ h)
replace_room_value-shown priority_field n p q h =
    ap (λ (x : RoomPlan). some x.priority) (make_room-eq _ h)

replace_in_room-shown :
    (area : String) (plan_field : PlanField) (n : ℤ) (p q : RoomPlan)
    → replace_in_room area plan_field n p ≡ ok q
    → ShowsNumber area plan_field n q
unfolding replace_in_room
replace_in_room-shown area plan_field n p q h = elim (Bool-cases (p.area_id == area)) [
  | inl e ↦ λ same. replace_room_value-shown plan_field n p q (ground arith)
  | inr e ↦
      let kept : p ≡ q = ground arith in
      λ same.
        absurd
          (ground (arith, subst (λ (x : RoomPlan). (x.area_id == area) ≡ true) (sym kept) same))
]

option_int-eq : (a b : Option ℤ) → option_beq int_beq a b ≡ true → a ≡ b
option_int-eq none none h = refl
option_int-eq none (some b) h = cc
option_int-eq (some a) none h = cc
option_int-eq (some a) (some b) h = ap some ((int_beq_iff a b).0 h)

room_beq-tests :
    (p q : RoomPlan)
    → room_beq p q ≡ true
    → ((p.area_id == q.area_id) ≡ true)
      × ((p.vacuum_interval_days == q.vacuum_interval_days) ≡ true)
      × (option_beq int_beq p.vacuum_and_mop_interval_days q.vacuum_and_mop_interval_days ≡ true)
      × ((p.priority == q.priority) ≡ true)
unfolding room_beq
room_beq-tests p q h = (ground arith, ground arith, ground arith, ground arith)

-- Equal rooms show the same numbers.
room_beq-native_value :
    (plan_field : PlanField) (p q : RoomPlan)
    → room_beq p q ≡ true
    → native_value plan_field p ≡ native_value plan_field q
unfolding native_value
room_beq-native_value vacuum_interval p q h = ap some ((int_beq_iff _ _).0 (room_beq-tests p q h).1)
room_beq-native_value vacuum_and_mop_interval p q h = option_int-eq _ _ (room_beq-tests p q h).2
room_beq-native_value priority_field p q h = ap some ((int_beq_iff _ _).0 (room_beq-tests p q h).3)

shown_like :
    (area : String) (plan_field : PlanField) (n : ℤ) (ps qs : List RoomPlan)
    → list_beq room_beq ps qs ≡ true
    → All (ShowsNumber area plan_field n) ps
    → All (ShowsNumber area plan_field n) qs
unfolding list_beq
shown_like area plan_field n [] [] h a = tt
shown_like area plan_field n [] (q ∷ qs) h a = absurd (cc)
shown_like area plan_field n (p ∷ ps) [] h a = absurd (cc)
shown_like area plan_field n (p ∷ ps) (q ∷ qs) h a =
    let alike : room_beq p q ≡ true = ground arith in
    let same = (string_eq.beq_iff p.area_id q.area_id).0 (room_beq-tests p q alike).0 in
    (
      λ of_area.
          sym (room_beq-native_value plan_field p q alike)
          ∙ a.0 (subst (λ x. (x == area) ≡ true) (sym same) of_area),
      shown_like area plan_field n ps qs (ground arith) a.1,
    )

-- A number that was set is shown: behind the command that sets it, each room of the area shows the
-- number in its field, whether the command has changed the plan or found it as it should be.
pub update_number-shown :
    (area : String) (plan_field : PlanField) (n : ℤ) (now : DateTime) (new_id : String)
    (s : PlannerState) {t : PlannerState}
    → update_number area plan_field n now new_id s ≡ ok t
    → All (ShowsNumber area plan_field n) t.plan_revision.room_plans
unfolding update_number
update_number-shown area plan_field n now new_id s {t} h =
    let (rooms, changed, h1) =
      >>=-eq-ok (map_result (replace_in_room area plan_field n) s.plan_revision.room_plans) _
        {result = t} h in
    let shown =
      map_result-All (λ _. Unit {0}) (ShowsNumber area plan_field n)
        (replace_in_room area plan_field n)
        (λ p q u e. replace_in_room-shown area plan_field n p q e) s.plan_revision.room_plans rooms
        (All-unit s.plan_revision.room_plans) changed in
    elim (Bool-cases (list_beq room_beq rooms s.plan_revision.room_plans)) [
      | inl e ↦
          subst
            (λ (x : PlannerState). All (ShowsNumber area plan_field n) x.plan_revision.room_plans)
            {x = s} {y = t} (ground arith)
            (shown_like area plan_field n rooms s.plan_revision.room_plans e shown)
      | inr e ↦
          let (at, dated, h2) =
            >>=-eq-ok (next_creation now s.plan_revision.created_at)
              (λ created_at.
                make_revision
                  (record { revision_id = new_id; created_at = created_at; room_plans = rooms })
                >>= λ revision. make_state (record s { plan_revision = revision }))
              {result = t} (ground arith) in
          let (revision, made, h3) =
            >>=-eq-ok
              (make_revision (record { revision_id = new_id; created_at = at; room_plans = rooms }))
              _ {result = t} h2 in
          subst
            (λ (x : PlannerState). All (ShowsNumber area plan_field n) x.plan_revision.room_plans)
            (sym (make_state-eq _ h3))
            (subst (λ (x : PlanRevision). All (ShowsNumber area plan_field n) x.room_plans)
              (sym (make_revision-eq _ made)) shown)
    ]
