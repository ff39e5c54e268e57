-- ===== src/Release/Withdrawn.antt =====
-- scripts/release_lock.py: `withdrawn`.
use freesense_os_base.Base.{
  String, Bool, ◌&&◌, ◌||◌, not, true, false, Option, none, some, List, [], ◌∷◌, ◌++◌,
  if◌then◌else◌, Result, ok, err, raised, fail, require, ◌>>=◌, ◌>>◌,
}
use freesense_os_base.Base.Json.{
  Json, str, get, items, is_text, is_array, is_null, is_object, text_where,
}
use freesense_os_base.Base.Text.{take_class, strip_prefix, is_digit, is_empty}
use freesense_os_base.Base.Sets.{Dict, contains}
use freesense_os_base.Delta.Worklist.{names}
use freesense_os_base.Delta.Records.{has_exactly}
use freesense_os_base.Release.Lock.{train_of, is_short_text}
pub mod Listed

-- `RELEASE.fullmatch(release)`
unfoldable pub is_release : String → Bool
unfolding train_of
is_release s = elim (train_of s) [ none ↦ false | some train ↦ true ]

-- `[0-9]{4}-[0-9]{2}-[0-9]{2}`
unfoldable pub is_date : String → Bool
unfolding take_class strip_prefix is_empty
is_date s = elim (take_class is_digit 4 s) [
  | none ↦ false
  | some (year, s) ↦ elim (strip_prefix "-" s) [
    | none ↦ false
    | some s ↦ elim (take_class is_digit 2 s) [
      | none ↦ false
      | some (month, s) ↦ elim (strip_prefix "-" s) [
        | none ↦ false
        | some s ↦ elim (take_class is_digit 2 s) [ none ↦ false | some (day, s) ↦ is_empty s ]
      ]
    ]
  ]
]

-- The test on one entry. `str(value)` of a value that is no text has neither shape.
unfoldable pub is_valid_entry : Json → Bool
unfolding is_release is_date is_short_text
is_valid_entry entry =
    has_exactly ("release" ∷ "date" ∷ "reason" ∷ "superseded_by" ∷ []) entry
    && text_where is_release (get "release" entry)
    && text_where is_date (get "date" entry)
    && is_short_text 300 (get "reason" entry)
    && (is_null (get "superseded_by" entry) || text_where is_release (get "superseded_by" entry))

-- One round of the loop over the entries
unfoldable pub add_named : Dict Json → Json → Json → Result (Dict Json)
add_named found entry (str release) =
    if contains (names found) release
    then fail "invalid withdrawn.json entry: "
    else ok (found ++ (release, entry) ∷ [])
add_named found entry _ = fail "invalid withdrawn.json entry: "

unfoldable pub add_entry : Dict Json → Json → Result (Dict Json)
unfolding is_valid_entry add_named
add_entry found entry = do
  require (is_valid_entry entry) "invalid withdrawn.json entry: "
  add_named found entry (get "release" entry)

unfoldable pub add_entries : Dict Json → List Json → Result (Dict Json)
unfolding add_entry
add_entries found [] = ok found
add_entries found (entry ∷ entries) = do more ← add_entry found entry; add_entries more entries

-- `withdrawn`, over the document of the file, or `none` where there is no file
unfoldable pub withdrawn : Option Json → Result (Dict Json)
unfolding add_entries
withdrawn none = ok []
withdrawn (some document) = if not (is_object document) then err (raised "AttributeError") else do
  require
      (is_text "freesense.withdrawn-releases/v1" (get "schema_version" document)
        && is_array (get "withdrawn" document))
      "invalid withdrawn.json"
  entries ← items (get "withdrawn" document)
  add_entries [] entries
