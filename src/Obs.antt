-- ===== src/Obs.antt =====
-- internal/obs/log.go: the process logger and what it prints of a record.
--
-- A handler is slog's JSON handler with what WithAttrs and WithGroup put into it, a line is the list
-- of its fields, each with the groups that are open where it stands. The output and the encoding of a
-- line are log/slog's; so are the prints of a level, parameters of the model. Attributes are no groups
-- and not empty, and a record has a time. Obs/Context has the attributes that a context carries.
pub mod Context
pub mod Lines
use tick.Base.{
  ℕ, ◌≡◌, Bool, true, false, Option, none, some, List, [], ◌∷◌, ◌++◌, Text, bytes, ◌=?◌, map, not,
  if◌then◌else◌,
}
use tick.Base.Int.{ℤ, ltb_ℤ}

pub data Value : Type 0 where
  level_value : (level : ℤ) → Value
  time_value : (at : ℕ) → Value
  string_value : (text : Text) → Value
  nil_value : Value

pub record Attr : Type 0 where
  pub key : Text
  pub value : Value

pub record Field : Type 0 where
  pub groups : List Text
  pub attr : Attr

-- slog.Record.
pub record Record : Type 0 where
  pub time : ℕ
  pub level : ℤ
  pub message : Text
  pub attrs : List Attr

-- LoggerOptions, but its writer and the source position.
pub record LoggerOptions : Type 0 where
  pub level : ℤ
  pub service : Text
  pub version : Text

-- slog's JSON handler: its preset fields, and the groups opened since.
pub record Handler : Type 0 where
  pub level : ℤ
  pub preset : List Field
  pub open_groups : List Text

-- How slog prints a level, and strings.ToLower.
pub record Prints : Type 0 where
  pub level_text : ℤ → Text
  pub to_lower : Text → Text

abbrev pub in_groups : List Text → List Attr → List Field
in_groups groups attrs = map (λ a. record { groups = groups; attr = a }) attrs

module _ (prints : Prints) where
  -- The case of slog.LevelKey: only a value that is a level.
  abbrev pub lower_level : Value → Value
  lower_level (level_value l) = string_value (prints.to_lower (prints.level_text l))
  lower_level (time_value at) = time_value at
  lower_level (string_value t) = string_value t
  lower_level nil_value = nil_value

  unfoldable pub normalize_attr : Attr → Attr
  normalize_attr a =
      if a.key =? bytes "level"
      then record a { value = lower_level a.value }
      else if a.key =? bytes "time"
      then record a { key = bytes "ts" }
      else if a.key =? bytes "msg"
      then record a { key = bytes "msg" }
      else a

  unfoldable pub normalize_field : Field → Field
  unfolding normalize_attr
  normalize_field f = record f { attr = normalize_attr f.attr }

  -- The line that the JSON handler writes.
  unfoldable pub line : Handler → Record → List Field
  unfolding normalize_field
  line h r = map normalize_field (
      in_groups [] (
        record { key = bytes "time"; value = time_value r.time }
        ∷ record { key = bytes "level"; value = level_value r.level }
        ∷ record { key = bytes "msg"; value = string_value r.message }
        ∷ [])
      ++ (h.preset ++ in_groups h.open_groups r.attrs))

  -- contextHandler.Handle, behind the logger's test of the level; `attrs` are those of the context.
  unfoldable pub handle : Handler → List Attr → Record → Option (List Field)
  unfolding line
  handle h attrs r =
      if ltb_ℤ r.level h.level then none else some (line h (record r { attrs = r.attrs ++ attrs }))

unfoldable pub with_attrs : Handler → List Attr → Handler
with_attrs h attrs = record h { preset = h.preset ++ in_groups h.open_groups attrs }

abbrev pub with_group : Handler → Text → Handler
with_group h name = record h { open_groups = h.open_groups ++ name ∷ [] }

abbrev pub attr_unless_empty : Text → Text → List Attr
attr_unless_empty key [] = []
attr_unless_empty key (c ∷ cs) = record { key = key; value = string_value (c ∷ cs) } ∷ []

unfoldable pub static_attrs : LoggerOptions → List Attr
static_attrs opts =
    attr_unless_empty (bytes "service") opts.service
    ++ attr_unless_empty (bytes "version") opts.version

abbrev pub attach : Handler → List Attr → Handler
attach h [] = h
attach h (a ∷ rest) = with_attrs h (a ∷ rest)

unfoldable pub new_logger : LoggerOptions → Handler
unfolding with_attrs static_attrs
new_logger opts =
    attach (record { level = opts.level; preset = []; open_groups = [] }) (static_attrs opts)
