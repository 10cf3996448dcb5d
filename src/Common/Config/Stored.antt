-- ===== src/Common/Config/Stored.antt =====
-- What is saved is loaded.
use mathlib.Core.List.{append_assoc, append-nil}
use remote_play.Prelude.{ℕ, ◌≡◌, ◌≢◌, refl, sym, ap, ◌∙◌, List, [], ◌∷◌, ◌++◌, true, false, arith}
use remote_play.Common.Config.Text.{
  cut, trim, lines, contains, cut-first, contains-append, strip_comment-absent, lines-append,
}
use remote_play.Common.Config.{
  Settings, Config, before, assign, store, store_entry, read_line, read_lines, load, print, save,
}

-- A key and a value that a line can hold.
pub record IsPlain (key value : List ℕ) : Type 0 where
  pub named : key ≢ []
  pub key_trimmed : trim key ≡ key
  pub value_trimmed : trim value ≡ value
  pub no_separator : contains b'=' key ≡ false
  pub key_comment : contains b'#' key ≡ false
  pub value_comment : contains b'#' value ≡ false
  pub key_line : contains b'\n' key ≡ false
  pub value_line : contains b'\n' value ≡ false

abbrev pub AllPlain : Settings → Type 0
AllPlain [] = Unit {0}
AllPlain ((k, v) ∷ m) = IsPlain k v × AllPlain m

-- Every key is before, or behind, `key`.
abbrev pub AllBefore : Settings → List ℕ → Type 0
AllBefore [] key = Unit {0}
AllBefore ((k, v) ∷ m) key = (before k key ≡ true) × AllBefore m key

abbrev pub AllBehind : List ℕ → Settings → Type 0
AllBehind key [] = Unit {0}
AllBehind key ((k, v) ∷ m) = (before key k ≡ true) × AllBehind key m

-- The order that the map keeps.
abbrev pub IsSorted : Settings → Type 0
IsSorted [] = Unit {0}
IsSorted ((k, v) ∷ m) = AllBehind k m × IsSorted m

abbrev AllPairs : Settings → Settings → Type 0
AllPairs m [] = Unit {0}
AllPairs m ((k, v) ∷ rest) = AllBefore m k × AllPairs m rest

store-named : (k v : List ℕ) (m : Settings) → k ≢ [] → store k v m ≡ assign k v m
unfolding store
store-named [] v m h = absurd (h refl)
store-named (c ∷ cs) v m h = refl

line-plain :
    (c : ℕ) (k v : List ℕ)
    → (b'=' ≢ c)
    → contains c k ≡ false
    → contains c v ≡ false
    → contains c (k ++ b'=' ∷ v) ≡ false
unfolding contains
line-plain c k v ne hk hv = contains-append c k (b'=' ∷ v) hk (ground (arith, hv))

read_line-plain :
    (k v : List ℕ) (m : Settings) → IsPlain k v → read_line (k ++ b'=' ∷ v) m ≡ assign k v m
unfolding read_line store_entry
read_line-plain k v m p =
    let line = k ++ b'=' ∷ v in
    ap (λ l. store_entry (cut b'=' l) m)
      (strip_comment-absent line
        (line-plain b'#' k v (λ e. absurd (omega (arith, e))) p.key_comment p.value_comment))
    ∙ ap (λ o. store_entry o m) (cut-first b'=' k v p.no_separator)
    ∙ ap (λ x. store x (trim v) m) p.key_trimmed
    ∙ ap (λ x. store k x m) p.value_trimmed
    ∙ store-named k v m p.named

-- A key behind all the others comes last.
assign-last : (k v : List ℕ) (m : Settings) → AllBefore m k → assign k v m ≡ m ++ (k, v) ∷ []
unfolding assign
assign-last k v [] h = refl
assign-last k v ((j, w) ∷ m) h = rw h.0 (ap (◌∷◌ (j, w)) (assign-last k v m h.1))

AllBefore-append :
    (m : Settings) (k v key : List ℕ)
    → AllBefore m key
    → before k key ≡ true
    → AllBefore (m ++ (k, v) ∷ []) key
AllBefore-append [] k v key h b = (b, tt)
AllBefore-append ((j, w) ∷ m) k v key h b = (h.0, AllBefore-append m k v key h.1 b)

AllPairs-append :
    (m rest : Settings) (k v : List ℕ)
    → AllPairs m rest
    → AllBehind k rest
    → AllPairs (m ++ (k, v) ∷ []) rest
AllPairs-append m [] k v h b = tt
AllPairs-append m ((j, w) ∷ rest) k v h b =
    (AllBefore-append m k v j h.0 b.0, AllPairs-append m rest k v h.1 b.1)

AllPairs-none : (rest : Settings) → AllPairs [] rest
AllPairs-none [] = tt
AllPairs-none ((k, v) ∷ rest) = (tt, AllPairs-none rest)

read_lines-print :
    (rest m : Settings)
    → AllPlain rest
    → IsSorted rest
    → AllPairs m rest
    → read_lines (lines (print rest)) m ≡ m ++ rest
unfolding read_lines print lines
read_lines-print [] m plain sorted pairs = sym (append-nil m)
read_lines-print ((k, v) ∷ rest) m plain sorted pairs =
    let line = k ++ b'=' ∷ v in
    let p = plain.0 in
    ap (λ ls. read_lines ls m)
      (lines-append line (print rest)
        (line-plain b'\n' k v (λ e. absurd (omega (arith, e))) p.key_line p.value_line))
    ∙ ap (λ x. read_lines (lines (print rest)) x)
        (read_line-plain k v m p ∙ assign-last k v m pairs.0)
    ∙ read_lines-print rest (m ++ (k, v) ∷ []) plain.1 sorted.1
        (AllPairs-append m rest k v pairs.1 sorted.0)
    ∙ append_assoc m ((k, v) ∷ []) rest

-- What `save` wrote of settings in the order of their keys is what `load` finds, where each key is
-- not empty, no key or value has a blank at an end, a `#` or the end of a line, and no key a `=`.
pub load-save :
    (c fresh : Config) (name : List ℕ) (now : ℕ)
    → fresh.settings ≡ []
    → AllPlain c.settings
    → IsSorted c.settings
    → let (answer, text) = save c true in
      (answer ≡ true)
      × (load fresh name text now
          ≡ (true, record { settings = c.settings; filename = name; last_load_time = now }))
unfolding save load
load-save c fresh name now empty plain sorted = (
  refl,
  ap (λ m. (true, record { settings = m; filename = name; last_load_time = now }))
      (ap (read_lines (lines (print c.settings))) empty
        ∙ read_lines-print c.settings [] plain sorted (AllPairs-none c.settings)),
)
