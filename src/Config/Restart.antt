-- ===== src/Config/Restart.antt =====
-- A local configuration that is written by one process and read by the next: de_databus/localConfigFile.cpp.
use Prim.Native.String.{◌++◌ as str_append}
use Prim.Native.String.append
use Prim.Native.Char.{code}
use droneengage_common.Common.{Bool, ◌==◌, ◌&&◌, ◌||◌, not, true, false, Option, String, on_some}
use droneengage_common.Json.{Json}
use droneengage_common.Config.Local.{
  LocalConfigFile, new_local, apply_file, init_local, closes_next,
}

-- Whether a comment starts with a slash in front of the text.
abbrev opens_comment : String → Bool
opens_comment String.[] = false
opens_comment (String.◌∷◌ d s) = code d == b'/' || code d == b'*'

-- A text without the start of a comment, and without a comma in front of a closing bracket.
abbrev pub is_unmarked : String → Bool
is_unmarked String.[] = true
is_unmarked (String.◌∷◌ c s) =
    not (code c == b'/' && opens_comment s)
    && (not (code c == b',' && closes_next s) && is_unmarked s)

module _ {F : Type 0} where
  -- `apply` by one process, and `InitConfigFile` by the next one.
  unfoldable pub restart :
      (Json F → String)
      → (String → Option (Json F))
      → Option String
      → LocalConfigFile F
      → Option (LocalConfigFile F × String)
  unfolding apply_file init_local
  restart dump parse file s =
      on_some (apply_file dump true file s)
        (λ written. init_local dump parse true written new_local)
