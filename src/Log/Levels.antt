-- ===== src/Log/Levels.antt =====
-- LogLevel (windgent/log.{h,cc}).
use hpserver_fw.Prelude.{◌≡◌, refl, List, [], ◌∷◌, if◌then◌else◌, Text, codes, same_text}

pub data Level : Type 0 where
  unknown debug info warn error fatal : Level

-- LogLevel::ToString.
unfoldable pub level_to_string : Level → Text
level_to_string unknown = codes "UNKNOWN"
level_to_string debug = codes "DEBUG"
level_to_string info = codes "INFO"
level_to_string warn = codes "WARN"
level_to_string error = codes "ERROR"
level_to_string fatal = codes "FATAL"

-- The cascade of `if`s, in the order of the source.
abbrev pub level_names : List (Level × Text)
level_names =
    (debug, codes "debug")
    ∷ (info, codes "info")
    ∷ (warn, codes "warn")
    ∷ (error, codes "error")
    ∷ (fatal, codes "fatal")
    ∷ (debug, codes "DEBUG")
    ∷ (info, codes "INFO")
    ∷ (warn, codes "WARN")
    ∷ (error, codes "ERROR")
    ∷ (fatal, codes "FATAL")
    ∷ []

unfoldable pub first_level : Text → List (Level × Text) → Level
unfolding same_text
first_level str [] = unknown
first_level str ((level, name) ∷ names) =
    let rest = first_level str names in if same_text str name then level else rest

-- LogLevel::FromString.
unfoldable pub level_from_string : Text → Level
unfolding first_level
level_from_string str = first_level str level_names

-- The name of a level is read back as the level.
pub level_from_string-name : (level : Level) → level_from_string (level_to_string level) ≡ level
unfolding level_from_string level_to_string
level_from_string-name unknown = refl
level_from_string-name debug = refl
level_from_string-name info = refl
level_from_string-name warn = refl
level_from_string-name error = refl
level_from_string-name fatal = refl
