-- ===== src/Ingest/Source/Handed.antt =====
-- The records that `_submit_pending` of scion_sdk/ingest/source_budget.py hands over: of each
-- identifier the last pending record is among them, with its digest.
use agent_connector_sdk.Base.{
  ℕ, String, ◌≡◌, refl, arith, true, false, inl, inr, Bool-cases, Option, none, some, List, [], ◌∷◌,
  ◌++◌, contains, str_eq, eq_iff,
}
use agent_connector_sdk.Base.Dict.{Dict, get, has, keys, insert, get-insert, has-of_get}
use agent_connector_sdk.Ingest.Source.{
  Spec, SyncBudget, Entity, Ports, Run, marks, entities_of, with_targets, pending_records,
  record_marks,
}
use agent_connector_sdk.Ingest.Source.Marks.{has_mark, LastIn}

has_mark-prepend :
    (id digest : String) (xs ys : List (String × String))
    → has_mark id digest xs ≡ true
    → has_mark id digest (xs ++ ys) ≡ true
has_mark-prepend id digest [] ys h = absurd cc
has_mark-prepend id digest ((i, d) ∷ xs) ys h = ground (arith, has_mark-prepend id digest xs ys)

get-insert_self :
    {V : Type 0} (id : String) (value : V) (d : Dict V) → get id (insert id value d) ≡ some value
get-insert_self id value d = ground (arith, get-insert id id value d, eq_iff id id)

module _ {W R : Type 0} (spec : Spec R) (budget : SyncBudget) (max_digests : ℕ)
    (ports : Ports W R) where
  -- The digests of pending records are theirs.
  abbrev pub AreMarked : List (Entity R × String) → Type 0
  AreMarked [] = Unit
  AreMarked ((entity, digest) ∷ pending) =
      (digest ≡ spec.digest_of entity.content) × AreMarked pending

  pub AreMarked-append :
      (pending : List (Entity R × String)) (entity : Entity R)
      → AreMarked pending
      → AreMarked (pending ++ ((entity, spec.digest_of entity.content) ∷ []))
  AreMarked-append [] entity h = (refl, tt)
  AreMarked-append ((other, digest) ∷ pending) entity h = (h.0, AreMarked-append pending entity h.1)

  get-entities_of :
      (id : String) (entity : Entity R) (pending : List (Entity R × String))
      (found : Dict (Entity R))
      → contains id (keys (marks pending)) ≡ false
      → get id found ≡ some entity
      → get id (entities_of spec budget max_digests ports pending found) ≡ some entity
  unfolding entities_of
  get-entities_of id entity [] found absent h = h
  get-entities_of id entity ((other, digest) ∷ pending) found absent h =
      let differs : str_eq other.id id ≡ false =
        ground (arith, eq_iff other.id id, eq_iff id other.id) in
      let rest : contains id (keys (marks pending)) ≡ false = ground arith in
      get-entities_of id entity pending (insert other.id other found) rest
        (rw (get-insert other.id id other found, differs) h)

  get-insert_absent :
      (target id : String) (entity other : Entity R) (found : Dict (Entity R))
      → has target found ≡ false
      → get id found ≡ some entity
      → get id (insert target other found) ≡ some entity
  get-insert_absent target id entity other found absent h = elim (Bool-cases (str_eq target id)) [
    | inl e ↦
        let same : target ≡ id = (eq_iff target id).0 e in
        let gone : has id found ≡ false = rw same at absent in
        absurd (ground (arith, gone, has-of_get id found h))
    | inr e ↦ rw (get-insert target id other found, e) h
  ]

  get-with_targets :
      (id : String) (entity : Entity R) (edges : List (Option (String × R)))
      (found : Dict (Entity R))
      → get id found ≡ some entity
      → get id (with_targets spec budget max_digests ports edges found) ≡ some entity
  unfolding with_targets
  get-with_targets id entity [] found h = h
  get-with_targets id entity (none ∷ edges) found h = get-with_targets id entity edges found h
  get-with_targets id entity (some (target, content) ∷ edges) found h =
      elim (Bool-cases (has target found)) [
        | inl e ↦ rw e (get-with_targets id entity edges found h)
        | inr e ↦
            rw e
              (get-with_targets id entity edges _ (get-insert_absent target id entity _ found e h))
      ]

  get-record_marks :
      (id : String) (entity : Entity R) (records : Dict (Entity R))
      → get id records ≡ some entity
      → has_mark id
          (spec.digest_of entity.content)
          (record_marks spec budget max_digests ports records)
        ≡ true
  unfolding record_marks
  get-record_marks id entity [] h = absurd cc
  get-record_marks id entity ((i, other) ∷ records) h = elim (Bool-cases (str_eq i id)) [
    | inl e ↦
        let same : other ≡ entity = ground (arith, rw e at h) in
        rw same (
          ground (
            arith,
            eq_iff id i,
            eq_iff i id,
            e,
            eq_iff (spec.digest_of entity.content) (spec.digest_of entity.content),
          ))
    | inr e ↦ ground (arith, get-record_marks id entity records (rw e at h))
  ]

  LastIn-entities :
      (pending : List (Entity R × String)) (found : Dict (Entity R))
      (edges : List (Option (String × R))) (log : List (String × String))
      → AreMarked pending
      → LastIn
          (record_marks spec budget max_digests ports (
              with_targets spec budget max_digests ports edges
                (entities_of spec budget max_digests ports pending found))
            ++ log)
          (marks pending)
  unfolding entities_of
  LastIn-entities [] found edges log h = tt
  LastIn-entities ((entity, digest) ∷ pending) found edges log (same, h) = (
    elim (Bool-cases (contains entity.id (keys (marks pending)))) [
      | inl later ↦ inr later
      | inr last ↦ inl (
          rw same (
            has_mark-prepend entity.id (spec.digest_of entity.content) _ log (
              get-record_marks entity.id entity _ (
                get-with_targets entity.id entity edges _ (
                  get-entities_of entity.id entity pending (insert entity.id entity found) last
                    (get-insert_self entity.id entity found))))))
    ],
    LastIn-entities pending (insert entity.id entity found) edges log h,
  )

  -- The batch that a submission carries has every pending mark that counts.
  pub LastIn-pending :
      (run : Run R) (log : List (String × String))
      → AreMarked run.pending
      → LastIn
          (record_marks spec budget max_digests ports
              (pending_records spec budget max_digests ports run)
            ++ log)
          (marks run.pending)
  unfolding pending_records
  LastIn-pending run log h = LastIn-entities run.pending [] run.pending_edges log h
