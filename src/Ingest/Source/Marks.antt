-- ===== src/Ingest/Source/Marks.antt =====
-- The records that a checkpoint of scion_sdk/ingest/_sync_run.py names, as a part of those that the
-- engine has accepted.
use agent_connector_sdk.Base.{
  ℕ, zero, suc, String, ◌≡◌, Bool, true, false, ◌&&◌, ◌||◌, List, [], ◌∷◌, ◌++◌, arith, str_eq,
  eq_iff, length, drop, ltb, Bool-cases, inl, inr, if◌then◌else◌, ◌⊎◌, contains,
}
use agent_connector_sdk.Base.Dict.{keys, insert, update}
use agent_connector_sdk.Ingest.Source.{newest}

abbrev pub has_mark : String → String → List (String × String) → Bool
has_mark id digest [] = false
has_mark id digest ((id', digest') ∷ log) =
    (str_eq id id' && str_eq digest digest') || has_mark id digest log

-- Each of the digests is in the log.
abbrev pub AllIn : List (String × String) → List (String × String) → Type 0
AllIn log [] = Unit
AllIn log ((id, digest) ∷ digests) = (has_mark id digest log ≡ true) × AllIn log digests

has_mark-append :
    (id digest : String) (xs ys : List (String × String))
    → has_mark id digest ys ≡ true
    → has_mark id digest (xs ++ ys) ≡ true
has_mark-append id digest [] ys h = h
has_mark-append id digest ((i, d) ∷ xs) ys h = ground (arith, has_mark-append id digest xs ys h)

pub AllIn-append :
    (xs log digests : List (String × String)) → AllIn log digests → AllIn (xs ++ log) digests
AllIn-append xs log [] h = tt
AllIn-append xs log ((i, d) ∷ digests) h =
    (has_mark-append i d xs log h.0, AllIn-append xs log digests h.1)

AllIn-cons :
    (id digest : String) (log digests : List (String × String))
    → AllIn log digests
    → AllIn ((id, digest) ∷ log) digests
AllIn-cons id digest log digests h = AllIn-append ((id, digest) ∷ []) log digests h

pub AllIn-self : (digests log : List (String × String)) → AllIn (digests ++ log) digests
AllIn-self [] log = tt
AllIn-self ((i, d) ∷ digests) log = (
  ground (arith, eq_iff i i, eq_iff d d),
  AllIn-cons i d (digests ++ log) digests (AllIn-self digests log),
)

others : String → List String → List String
others id [] = []
others id (key ∷ keys) = let rest = others id keys in if str_eq id key then rest else key ∷ rest

contains-others :
    (id other : String) (keys : List String)
    → str_eq other id ≡ false
    → contains id keys ≡ true
    → contains id (others other keys) ≡ true
unfolding others
contains-others id other [] differs h = h
contains-others id other (key ∷ keys) differs h =
    ground (
      arith,
      eq_iff id key,
      eq_iff other key,
      eq_iff other id,
      contains-others id other keys differs,
    )

-- Each of the digests is in the log, but for the first digest of each of the keys.
AllBut : List String → List (String × String) → List (String × String) → Type 0
AllBut keys log [] = Unit
AllBut keys log ((id, digest) ∷ digests) =
    ((has_mark id digest log ≡ true) ⊎ (contains id keys ≡ true))
    × AllBut (others id keys) log digests

AllBut-start :
    (keys : List String) (log digests : List (String × String))
    → AllIn log digests
    → AllBut keys log digests
unfolding AllBut
AllBut-start keys log [] h = tt
AllBut-start keys log ((id, digest) ∷ digests) h =
    (inl h.0, AllBut-start (others id keys) log digests h.1)

AllBut-end : (log digests : List (String × String)) → AllBut [] log digests → AllIn log digests
unfolding AllBut others
AllBut-end log [] h = tt
AllBut-end log ((id, digest) ∷ digests) (inl marked, h) = (marked, AllBut-end log digests h)
AllBut-end log ((id, digest) ∷ digests) (inr absent, h) = absurd cc

AllBut-insert :
    (id digest : String) (keys : List String) (log digests : List (String × String))
    → (has_mark id digest log ≡ true) ⊎ (contains id keys ≡ true)
    → AllBut (id ∷ keys) log digests
    → AllBut keys log (insert id digest digests)
unfolding AllBut others
AllBut-insert id digest keys log [] m h = (m, tt)
AllBut-insert id digest keys log ((i, d) ∷ digests) m (first, h) = elim (Bool-cases (str_eq i id)) [
  | inl e ↦ rw e ((let same = (eq_iff i id).0 e in rw same m), rw e at h)
  | inr e ↦ rw e (
    rw e at first,
    AllBut-insert id digest (others i keys) log digests
        (elim m [ inl marked ↦ inl marked | inr later ↦ inr (contains-others id i keys e later) ])
        (rw e at h),
  )
]

-- The marks of a batch: each is in the log, or its record comes again later in the batch.
abbrev pub LastIn : List (String × String) → List (String × String) → Type 0
LastIn log [] = Unit
LastIn log ((id, digest) ∷ marks) =
    ((has_mark id digest log ≡ true) ⊎ (contains id (keys marks) ≡ true)) × LastIn log marks

update-AllIn :
    (log digests new : List (String × String))
    → AllBut (keys new) log digests
    → LastIn log new
    → AllIn log (update digests new)
update-AllIn log digests [] h last = AllBut-end log digests h
update-AllIn log digests ((id, digest) ∷ new) h (marked, last) =
    update-AllIn log (insert id digest digests) new
      (AllBut-insert id digest (keys new) log digests marked h) last

pub AllIn-update :
    (log digests new : List (String × String))
    → AllIn log digests
    → LastIn log new
    → AllIn log (update digests new)
AllIn-update log digests new h last =
    update-AllIn log digests new (AllBut-start (keys new) log digests h) last

AllIn-drop :
    (n : ℕ) (log digests : List (String × String)) → AllIn log digests → AllIn log (drop n digests)
AllIn-drop zero log digests h = h
AllIn-drop (suc n) log [] h = tt
AllIn-drop (suc n) log (p ∷ digests) h = AllIn-drop n log digests h.1

pub AllIn-newest :
    (limit : ℕ) (log digests : List (String × String))
    → AllIn log digests
    → AllIn log (newest limit digests)
AllIn-newest limit log digests h = elim (Bool-cases (ltb limit (length digests))) [
  | inl e ↦ rw e (AllIn-drop _ log digests h)
  | inr e ↦ rw e h
]
