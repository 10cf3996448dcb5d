-- ===== src/Common/Config/Tests.antt =====
-- Runs and instances of the settings.
use remote_play.Prelude.{ℕ, ◌≡◌, ◌≢◌, refl, List, [], ◌∷◌, true, some}
use remote_play.Common.Config.Text.{
  cut, strip_comment, trim, trim_front, trim_back, is_blank, lines, contains,
}
use remote_play.Common.Config.{
  Settings, Config, before, assign, store, store_entry, read_line, read_lines, load, save,
}
use remote_play.Common.Config.Stored.{IsPlain, AllPlain, IsSorted, load-save}

-- "  fps = 60 # fast", then "vsync", and "a=b=c" without an end.
abbrev file : List ℕ
file =
    b' ' ∷ b' ' ∷ b'f' ∷ b'p' ∷ b's' ∷ b' ' ∷ b'=' ∷ b' ' ∷ b'6' ∷ b'0' ∷ b' ' ∷ b'#' ∷ b'f' ∷ b'\n'
    ∷ b'v' ∷ b's' ∷ b'\n' ∷ b'a' ∷ b'=' ∷ b'b' ∷ b'=' ∷ b'c' ∷ []

abbrev kept : Settings
kept = (b'a' ∷ [], b'b' ∷ b'=' ∷ b'c' ∷ []) ∷ (b'f' ∷ b'p' ∷ b's' ∷ [], b'6' ∷ b'0' ∷ []) ∷ []

abbrev empty : Config
empty = record { settings = []; filename = []; last_load_time = 0 }

abbrev kept_config : Config
kept_config = record { settings = kept; filename = b'x' ∷ []; last_load_time = 7 }

load-file : load empty (b'x' ∷ []) (some file) 7 ≡ (true, kept_config)
unfolding load lines read_lines read_line store_entry store assign before strip_comment cut trim
    trim_front trim_back is_blank
load-file = refl

kept-AllPlain : AllPlain kept
unfolding contains trim trim_front trim_back is_blank
kept-AllPlain = (plain_a, (plain_fps, tt))
  where
    named : (c : ℕ) (cs : List ℕ) → (c ∷ cs) ≢ []
    named c cs e = cc

    plain_a : IsPlain (b'a' ∷ []) (b'b' ∷ b'=' ∷ b'c' ∷ [])
    plain_a = record {
      named = named b'a' [];
      key_trimmed = refl;
      value_trimmed = refl;
      no_separator = refl;
      key_comment = refl;
      value_comment = refl;
      key_line = refl;
      value_line = refl;
    }

    plain_fps : IsPlain (b'f' ∷ b'p' ∷ b's' ∷ []) (b'6' ∷ b'0' ∷ [])
    plain_fps = record {
      named = named b'f' (b'p' ∷ b's' ∷ []);
      key_trimmed = refl;
      value_trimmed = refl;
      no_separator = refl;
      key_comment = refl;
      value_comment = refl;
      key_line = refl;
      value_line = refl;
    }

kept-IsSorted : IsSorted kept
unfolding before
kept-IsSorted = ((refl, tt), (tt, tt))

load-save_example :
    let (answer, text) = save kept_config true in
    (answer ≡ true)
    × (load empty (b'x' ∷ []) text 9
        ≡ (true, record { settings = kept; filename = b'x' ∷ []; last_load_time = 9 }))
load-save_example = load-save kept_config empty (b'x' ∷ []) 9 refl kept-AllPlain kept-IsSorted
