-- ===== src/Client/Receiver/Fragment/Count.antt =====
-- The count of fragments is the number of fragments that are there.
use remote_play.Prelude.{
  ℕ, zero, suc, ◌+◌, ◌≤◌, ◌<◌, ◌≡◌, ◌≢◌, ◌⊎◌, refl, sym, ap, ◌∙◌, Bool, true, false, ◌||◌, arith,
  leb, ◌==◌, if◌then◌else◌, u16, Bool-cases, inl, inr, ==_iff,
}
use remote_play.Client.Frame.{FrameData, fresh}
use remote_play.Common.Protocol.{VideoHeader, FecHeader}
use remote_play.Client.Receiver.Fragment.{
  put, open_frame, wants, store_fragment, find_missing, rebuild, mark_complete, recover,
}

-- How many of the first `n` places of the map are set.
unfoldable pub count_set : (ℕ → Bool) → ℕ → ℕ
count_set m zero = 0
count_set m (suc n) = count_set m n + (if m n then 1 else 0)

pub count_set-le : (m : ℕ → Bool) (n : ℕ) → count_set m n ≤ n
unfolding count_set
count_set-le m zero = omega arith
count_set-le m (suc n) = ground (arith, count_set-le m n)

pub count_set-none : (n : ℕ) → count_set (λ i. false) n ≡ 0
unfolding count_set
count_set-none zero = refl
count_set-none (suc n) = omega (arith, count_set-none n)

put_out : (m : ℕ → Bool) (i n : ℕ) → n ≤ i → count_set (put m i true) n ≡ count_set m n
unfolding count_set
put_out m i zero h = refl
put_out m i (suc n) h = ground (arith, put_out m i n)

pub count_set-put :
    (m : ℕ → Bool) (i n : ℕ) → i < n → m i ≡ false → count_set (put m i true) n ≡ count_set m n + 1
unfolding count_set
count_set-put m i zero h e = absurd (omega arith)
count_set-put m i (suc n) h e = elim (Bool-cases (n == i)) [
  | inl same ↦
      let at : n ≡ i = (==_iff n i).0 same in
      rw (same, at, e) (omega (arith, put_out m i i (omega arith), at))
  | inr other ↦ rw other (ground (arith, count_set-put m i n))
]

pub count_set_full : (m : ℕ → Bool) (n i : ℕ) → count_set m n ≡ n → i < n → m i ≡ true
unfolding count_set
count_set_full m zero i e h = absurd (omega arith)
count_set_full m (suc n) i e h = elim (Bool-cases (n == i)) [
  | inl same ↦ ground (arith, count_set-le m n, ap m ((==_iff n i).0 same))
  | inr other ↦ ground (arith, count_set-le m n, count_set_full m n i)
]

-- What holds of every frame between two calls.
pub record IsCounted (f : FrameData) : Type 0 where
  pub counted : f.fragments_received ≡ count_set f.fragment_map f.total_fragments
  pub bounded : f.total_fragments ≤ 1024
  pub mapped : 1024 ≤ f.map_size
  pub complete : f.is_complete ≡ true → f.fragments_received ≡ f.total_fragments

pub fresh-IsCounted : IsCounted fresh
unfolding fresh count_set
fresh-IsCounted = ground arith

pub open_frame-IsCounted :
    (h : VideoHeader) (now : ℕ) (f : FrameData)
    → h.total_fragments ≤ 1024
    → IsCounted f
    → IsCounted (open_frame h now f)
unfolding open_frame
open_frame-IsCounted h now f le v = ground (arith, count_set-none h.total_fragments)

-- Every fragment of a complete frame is there.
pub complete_full :
    (f : FrameData) (i : ℕ)
    → IsCounted f
    → f.is_complete ≡ true
    → i < f.total_fragments
    → f.fragment_map i ≡ true
complete_full f i v e h =
    count_set_full f.fragment_map f.total_fragments i (sym v.counted ∙ v.complete e) h

wants-not_complete :
    (h : VideoHeader) (f : FrameData) → IsCounted f → wants h f ≡ true → f.is_complete ≡ false
unfolding wants
wants-not_complete h f v w = elim (Bool-cases f.is_complete) [
  | inr e ↦ e
  | inl e ↦ absurd (ground (arith, complete_full f h.fragment_index v e))
]

pub store_fragment-IsCounted :
    (h : VideoHeader) (payload : ℕ → ℕ) (f : FrameData)
    → wants h f ≡ true
    → IsCounted f
    → IsCounted (store_fragment h payload f)
unfolding store_fragment wants
store_fragment-IsCounted h payload f w v = ground (
  arith,
  wants-not_complete h f v w,
  count_set-put f.fragment_map h.fragment_index f.total_fragments,
  count_set-le (put f.fragment_map h.fragment_index true) f.total_fragments,
)

pub mark_complete-IsCounted : (f : FrameData) → IsCounted f → IsCounted (mark_complete f)
unfolding mark_complete
mark_complete-IsCounted f v = ground arith

-- A fragment that the first loop counts is one of the frame's, and not there.
abbrev IsMissing : FrameData → ℕ → Type 0
IsMissing f i = (i < f.total_fragments) × (f.fragment_map i ≡ false)

find_missing-IsMissing :
    (f : FrameData) (start i rounds count index : ℕ)
    → (count ≡ 0) ⊎ IsMissing f index
    → let r = find_missing f start i rounds count index in (r.0 ≡ 0) ⊎ IsMissing f r.1
unfolding find_missing
find_missing-IsMissing f start i zero count index h = h
find_missing-IsMissing f start i (suc rounds) count index h =
    let idx = u16 (start + i) in
    elim (Bool-cases (leb f.total_fragments idx || leb f.map_size idx)) [
      | inl stop ↦ rw stop h
      | inr go ↦ rw go (elim (Bool-cases (f.fragment_map idx)) [
        | inl there ↦ rw there (find_missing-IsMissing f start (i + 1) rounds count index h)
        | inr not_there ↦ rw not_there (
            find_missing-IsMissing f start (i + 1) rounds (u16 (count + 1)) idx
              (inr (ground arith, not_there)))
      ])
    ]

rebuild-IsCounted :
    (f : FrameData) (h : FecHeader) (parity : ℕ → ℕ) (start missing : ℕ)
    → IsMissing f missing
    → f.is_complete ≡ false
    → IsCounted f
    → IsCounted (rebuild f h parity start missing)
unfolding rebuild mark_complete
rebuild-IsCounted f h parity start missing m e v = ground (
  arith,
  count_set-put f.fragment_map missing f.total_fragments,
  count_set-le (put f.fragment_map missing true) f.total_fragments,
)

-- Recovery keeps the count right.
pub recover-IsCounted :
    (f : FrameData) (h : FecHeader) (parity : ℕ → ℕ) (start : ℕ)
    → f.is_complete ≡ false
    → IsCounted f
    → IsCounted (recover f h parity start)
unfolding recover
recover-IsCounted f h parity start e v =
    let r = find_missing f start 0 h.fragment_count 0 0 in
    elim (Bool-cases (r.0 == 1)) [
      | inr other ↦ rw other v
      | inl one ↦ elim (find_missing-IsMissing f start 0 h.fragment_count 0 0 (inl refl)) [
        | inl none_missing ↦ absurd (ground arith)
        | inr m ↦ rw one (rebuild-IsCounted f h parity start r.1 m e v)
      ]
    ]

-- Two maps that differ at no place count the same.
pub count_set-agree :
    (m m' : ℕ → Bool) (n : ℕ) → ((j : ℕ) → j < n → m' j ≡ m j) → count_set m' n ≡ count_set m n
unfolding count_set
count_set-agree m m' zero same = refl
count_set-agree m m' (suc n) same =
    rw (same n (omega arith)) (omega (arith, count_set-agree m m' n (λ j h. same j (omega arith))))

-- Two maps that differ at one place count the same or one more.
pub count_set-differ :
    (m m' : ℕ → Bool) (i n : ℕ)
    → ((j : ℕ) → j ≢ i → m' j ≡ m j)
    → i < n
    → count_set m' n + (if m i then 1 else 0) ≡ count_set m n + (if m' i then 1 else 0)
unfolding count_set
count_set-differ m m' i zero same h = absurd (omega arith)
count_set-differ m m' i (suc n) same h = elim (Bool-cases (n == i)) [
  | inl here ↦
      let at : n ≡ i = (==_iff n i).0 here in
      rw at (
        omega
          (arith, count_set-agree m m' i (λ j le. same j (λ e. absurd (omega (arith, e, le)))), at))
  | inr other ↦
      rw (same n (λ e. absurd (ground (arith, other, e))))
        (ground (arith, count_set-differ m m' i n same))
]
