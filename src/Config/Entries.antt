-- ===== src/Config/Entries.antt =====
-- producer_azs/config_manager.cpp, load: which entries a file gives.
use kafka_replication.Base.{
  ℕ, ◌+◌, ◌-◌, ◌<◌, ◌≡◌, refl, ap, ◌∙◌, inl, inr, true, Option, none, some, [], ◌∷◌, ◌++◌, arith,
  Bool-cases, Bytes, length, All, drop-append, take-append,
}
use kafka_replication.Base.Text.{is_blank, find_first_not_of, find_last_not_of, map_suc}
use kafka_replication.Config.{trim_between, trim}

abbrev pub IsBlank : ℕ → Type 0
IsBlank c = is_blank c ≡ true

-- A text with no blank at its ends.
pub record IsTrimmed (s : Bytes) : Type 0 where
  pub first : find_first_not_of s ≡ some 0
  pub last : find_last_not_of s ≡ some (length s - 1)
  pub ne_nil : 0 < length s

find_first_pad :
    (pad s : Bytes) (i : ℕ)
    → All IsBlank pad
    → find_first_not_of s ≡ some i
    → find_first_not_of (pad ++ s) ≡ some (length pad + i)
unfolding find_first_not_of
find_first_pad [] s i h e = e ∙ ap some (omega arith)
find_first_pad (x ∷ pad) s i (h, hs) e = rw (h, find_first_pad pad s i hs e) (ap some (omega arith))

find_first_behind :
    (s pad : Bytes) → find_first_not_of s ≡ some 0 → find_first_not_of (s ++ pad) ≡ some 0
unfolding find_first_not_of
find_first_behind [] pad e = cc
find_first_behind (x ∷ s) pad e = elim (Bool-cases (is_blank x)) [
  | inl blank ↦ never (find_first_not_of s) (rw blank at e)
  | inr solid ↦ rw solid
]
  where
    never : (o : Option ℕ) → map_suc o ≡ some 0 → find_first_not_of ((x ∷ s) ++ pad) ≡ some 0
    never none e' = cc
    never (some i) e' = cc

pub find_last_blank : (pad : Bytes) → All IsBlank pad → find_last_not_of pad ≡ none
unfolding find_last_not_of
find_last_blank [] h = refl
find_last_blank (x ∷ pad) (h, hs) = rw (find_last_blank pad hs, h)

find_last_behind :
    (s pad : Bytes) → All IsBlank pad → find_last_not_of (s ++ pad) ≡ find_last_not_of s
unfolding find_last_not_of
find_last_behind [] pad h = find_last_blank pad h
find_last_behind (x ∷ s) pad h = rw (find_last_behind s pad h)

find_last_pad :
    (pad s : Bytes) (i : ℕ)
    → find_last_not_of s ≡ some i
    → find_last_not_of (pad ++ s) ≡ some (length pad + i)
unfolding find_last_not_of
find_last_pad [] s i e = e ∙ ap some (omega arith)
find_last_pad (x ∷ pad) s i e = rw (find_last_pad pad s i e) (ap some (omega arith))

-- Trimming takes the blanks off both ends, and nothing else.
pub trim_pad :
    (front s back : Bytes)
    → All IsBlank front
    → All IsBlank back
    → IsTrimmed s
    → trim (front ++ (s ++ back)) ≡ some s
unfolding trim trim_between
trim_pad front s back hf hb k =
    let count : length front + (length s - 1) - (length front + 0) + 1 ≡ length s =
      omega (arith, k.ne_nil) in
    let start : length front + 0 ≡ length front = omega arith in
    rw (
      find_first_pad front (s ++ back) 0 hf (find_first_behind s back k.first),
      find_last_pad front (s ++ back) (length s - 1) (find_last_behind s back hb ∙ k.last),
      count,
      start,
      drop-append front (s ++ back),
      take-append s back,
    )
