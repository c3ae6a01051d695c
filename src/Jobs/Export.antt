-- ===== src/Jobs/Export.antt =====
-- What a job hands to the exporters.
use hemera_indexer.Prelude.{
  ◌≡◌, refl, ap, ◌∙◌, String, Bool, true, false, none, List, [], ◌∷◌, ◌++◌, append_assoc,
  append-nil, Dict, has, lookup, lookup-insert, if◌then◌else◌, ◌==◌, string_eq, Bool-cases,
  Option-cases, inl, inr, All, beq→eq,
}
use hemera_indexer.Errors.{Outcome, returns}
use hemera_indexer.Jobs.{
  Event, exported, State, Job, touch, items_at, required_items, export_to, export, emit,
}

module _ {I : Type 0} where
  items_at-touch :
      (u key : String) (buff : Dict String (List I)) → items_at u (touch key buff) ≡ items_at u buff
  items_at-touch u key buff = elim (Option-cases (lookup key buff)) [
    | inr (items, found) ↦ rw (touch, found) refl
    | inl new ↦ elim (Bool-cases (u == key)) [
      | inl same ↦
          let e : u ≡ key = beq→eq same in
          let missing : lookup u buff ≡ none = ap (λ k. lookup k buff) e ∙ new in
          rw (touch, new) (rw (items_at, lookup-insert key u [] buff, same, missing) refl)
      | inr differ ↦ rw (touch, new) (rw (items_at, lookup-insert key u [] buff, differ) refl)
    ]
  ]

  items_at-touch_if :
      (u key : String) (b : Bool) (buff : Dict String (List I))
      → items_at u (if b then touch key buff else buff) ≡ items_at u buff
  items_at-touch_if u key true buff = items_at-touch u key buff
  items_at-touch_if u key false buff = refl

  -- The items of the output types that are required, each type's in its own order.
  abbrev pub wanted : List String → List String → (String → List I) → List I
  wanted [] required items = []
  wanted (t ∷ ts) required items =
      (if has t required then items t else []) ++ wanted ts required items

  wanted-cong :
      (ts required : List String) (f g : String → List I)
      → ((u : String) → f u ≡ g u)
      → wanted ts required f ≡ wanted ts required g
  wanted-cong [] required f g h = refl
  wanted-cong (t ∷ ts) required f g h = cc (h t, wanted-cong ts required f g h)

  required_items-wanted :
      (ts required : List String) (buff : Dict String (List I))
      → ((required_items ts required buff).0 ≡ wanted ts required (λ u. items_at u buff))
        × ((u : String) → items_at u (required_items ts required buff).1 ≡ items_at u buff)
  unfolding required_items
  required_items-wanted [] required buff = (refl, λ u. refl)
  required_items-wanted (t ∷ ts) required buff =
      let buff2 = if has t required then touch t buff else buff in
      let (items, kept) = required_items-wanted ts required buff2 in
      let same = λ (u : String). items_at-touch_if u t (has t required) buff in
      (
        ap (λ l. (if has t required then items_at t buff else []) ++ l)
            (items ∙ wanted-cong ts required (λ u. items_at u buff2) (λ u. items_at u buff) same),
        λ u. kept u ∙ same u,
      )

  -- As many exports as there are exporters.
  abbrev pub repeated : List (List I → Outcome (Unit {0})) → List I → List (Event I)
  repeated [] items = []
  repeated (exporter ∷ exporters) items = exported items ∷ repeated exporters items

  export_to-repeated :
      (exporters : List (List I → Outcome (Unit {0}))) (items : List I) (s : State I)
      → All (λ exporter. exporter items ≡ returns tt) exporters
      → export_to exporters items s ≡ (
        returns tt,
        record { data_buff = s.data_buff; events = s.events ++ repeated exporters items },
      )
  export_to-repeated [] items s accept = rw (append-nil s.events) refl
  export_to-repeated (exporter ∷ exporters) items s accept =
      let rest = export_to-repeated exporters items (emit (exported items) s) accept.1 in
      rw (accept.0, ← append_assoc s.events (exported items ∷ []) (repeated exporters items)) rest

  -- If all exporters take what they are given, the export of a job hands each of them, once, the items
  -- of the job's output types that are required, each type's in the order in which they were collected,
  -- and leaves the buffers as they are to every reader.
  pub export-wanted :
      (required : List String) (exporters : List (List I → Outcome (Unit {0}))) (job : Job I)
      (s : State I)
      → let items = wanted job.output_types required (λ u. items_at u s.data_buff) in
        All (λ exporter. exporter items ≡ returns tt) exporters
        → ((export required exporters job s).0 ≡ returns tt)
          × ((export required exporters job s).1.events ≡ s.events ++ repeated exporters items)
          × ((u : String)
              → items_at u (export required exporters job s).1.data_buff ≡ items_at u s.data_buff)
  unfolding export
  export-wanted required exporters job s accept =
      let read = required_items job.output_types required s.data_buff in
      let (same, kept) = required_items-wanted job.output_types required s.data_buff in
      let items = wanted job.output_types required (λ u. items_at u s.data_buff) in
      let done =
        export_to-repeated exporters items (record { data_buff = read.1; events = s.events })
          accept in
      rw (same, done) (refl, refl, kept)
