-- ===== src/Config/Tests.antt =====
-- The theorems on the configuration at concrete documents; the parser knows one text.
use droneengage_common.Common.{
  ◌≡◌, refl, ap, subst, true, false, Option, none, some, String, str_eq, List, [], ◌∷◌,
  if◌then◌else◌,
}
use droneengage_common.Common.Assoc.{lookup}
use droneengage_common.Common.Int.{ℤ}
use droneengage_common.Json.{
  Json, null, string, unsigned, object, Members, end, member, members, at,
}
use droneengage_common.Config.Merge.{IsMap, merged_value, deep_merge, at-deep_merge}
use droneengage_common.Config.File.{ConfigFile, remove_comments, apply_entries}
use droneengage_common.Config.Layers.{
  ConfigCall, override_call, update_call, IsAcceptedRun, config_step, config_run, published_run,
  config_run-published_run,
}
use droneengage_common.Config.Local.{LocalConfigFile, drop_commas}
use droneengage_common.Config.Changes.{Change, adds_string, adds_numeric, removes}

-- {"a": {"b": 1}}
abbrev document : Json ℤ
document = object (member "a" (object (member "b" (unsigned 1) end)) end)

-- {"a": {"b": 5}}
abbrev overrides : Members ℤ
overrides = member "a" (object (member "b" (unsigned 5) end)) end

-- {"a.c": 2}
abbrev parser : String → Option (Json ℤ)
parser text = if str_eq text "{a.c: 2}" then some (object (member "a.c" (unsigned 2) end)) else none

abbrev published_document : Json ℤ
published_document =
    object (member "a" (object (member "b" (unsigned 1) (member "c" (unsigned 2) end))) end)

abbrev running_document : Json ℤ
running_document =
    object (member "a" (object (member "b" (unsigned 5) (member "c" (unsigned 2) end))) end)

abbrev before : ConfigFile ℤ
before = record {
  config = document;
  base = document;
  local_overrides = null;
  last_write = 0;
  update_pending = false;
}

abbrev after : ConfigFile ℤ
after = record {
  config = running_document;
  base = published_document;
  local_overrides = object overrides;
  last_write = 7;
  update_pending = true;
}

abbrev calls : List (ConfigCall ℤ)
calls = override_call (object overrides) ∷ update_call "{a.c: 2}// comment" true (some 7) ∷ []

comment_removed : remove_comments "{a.c: 2}// comment" ≡ "{a.c: 2}"
unfolding remove_comments
comment_removed = refl

abbrev saves : List (Option (Json ℤ))
saves = none ∷ some published_document ∷ []

run_of_calls : config_run parser calls before ≡ some (after, saves)
unfolding config_run
run_of_calls = refl

abbrev overridden : ConfigFile ℤ
overridden = record before {
  config = object (member "a" (object (member "b" (unsigned 5) end)) end);
  local_overrides = object overrides;
}

abbrev state_of : Option (ConfigFile ℤ × Option (Json ℤ)) → ConfigFile ℤ
state_of none = before
state_of (some r) = r.0

calls-IsAcceptedRun : IsAcceptedRun parser calls before
unfolding IsAcceptedRun config_step apply_entries
calls-IsAcceptedRun = (
  tt,
  λ r e. (
    subst (λ c. (apply_entries (("a.c", unsigned 2) ∷ []) c.config).1 ≡ false) {x = overridden}
        {y = r.0} (ap state_of e) refl,
    λ q f. tt,
  ),
)

config_run-published_run_example :
    published_run parser calls document ≡ some (published_document, saves)
config_run-published_run_example =
    config_run-published_run parser calls before after saves calls-IsAcceptedRun run_of_calls

overrides-IsMap : IsMap overrides
unfolding IsMap lookup
overrides-IsMap = (refl, tt)

at-deep_merge_example :
    at "a" (deep_merge (object overrides) document)
    ≡ merged_value (lookup "a" (members overrides)) (at "a" document)
at-deep_merge_example = at-deep_merge overrides document "a" overrides-IsMap

abbrev field_changes : List (Change ℤ)
field_changes =
    adds_string "id" "d1" ∷ adds_numeric "port" 9 ∷ removes "id" ∷ adds_string "key" "k" ∷ []

abbrev changed_fields : Json ℤ
changed_fields = object (member "key" (string "k") (member "port" (unsigned 9) end))

-- A printer and a parser that know this document.
abbrev print_fields : Json ℤ → String
print_fields j = "{'key':'k','port':9}"

abbrev parse_fields : String → Option (Json ℤ)
parse_fields text = if str_eq text "{'key':'k','port':9}" then some changed_fields else none

abbrev config_or_null : Option (LocalConfigFile ℤ) → Json ℤ
config_or_null none = null
config_or_null (some s) = s.config

-- A text with two slashes, as a field may have, is cut where it is read.
slashes_are_cut : remove_comments "{'url':'http://h'}" ≡ "{'url':'http:"
unfolding remove_comments
slashes_are_cut = refl

last_comma_dropped : drop_commas "{'a': [1, 2, ], }" ≡ "{'a': [1, 2 ] }"
unfolding drop_commas
last_comma_dropped = refl
