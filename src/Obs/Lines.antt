-- ===== src/Obs/Lines.antt =====
-- What the lines of a logger have in common.
use mathlib.Core.List.{append_assoc, append-nil, map-append}
use tick.Base.{◌≡◌, refl, ap, sym, ◌∙◌, false, some, List, [], ◌∷◌, ◌++◌, Text, bytes, ◌=?◌, map}
use tick.Base.Int.{ltb_ℤ}
use tick.Obs.{
  Attr, Field, Record, Handler, LoggerOptions, Prints, in_groups, line, handle, with_attrs,
  with_group, new_logger, static_attrs, attr_unless_empty, attach, normalize_field, normalize_attr,
  string_value, time_value,
}

-- What a caller derives a logger with.
pub data Derivation : Type 0 where
  attrs_added : (attrs : List Attr) → Derivation
  group_opened : (name : Text) → Derivation

unfoldable pub derive : Handler → List Derivation → Handler
unfolding with_attrs
derive h [] = h
derive h (attrs_added attrs ∷ ds) = derive (with_attrs h attrs) ds
derive h (group_opened name ∷ ds) = derive (with_group h name) ds

-- Deriving adds fields behind those that are there, and keeps the level.
derive-preset :
    (h : Handler) (ds : List Derivation)
    → ((derive h ds).level ≡ h.level)
      × ((added : List Field) × ((derive h ds).preset ≡ h.preset ++ added))
unfolding derive
derive-preset h [] = (refl, ([], sym (append-nil h.preset)))
derive-preset h (attrs_added attrs ∷ ds) =
    let (l, (added, e)) = derive-preset (with_attrs h attrs) ds in
    (l, (in_groups h.open_groups attrs ++ added, e ∙ append_assoc h.preset _ added))
derive-preset h (group_opened name ∷ ds) = derive-preset (with_group h name) ds

attach-preset :
    (h : Handler) (attrs : List Attr)
    → ((attach h attrs).level ≡ h.level)
      × ((attach h attrs).preset ≡ h.preset ++ in_groups h.open_groups attrs)
unfolding with_attrs
attach-preset h [] = (refl, sym (append-nil h.preset))
attach-preset h (a ∷ rest) = (refl, refl)

module _ (prints : Prints) where
  static_unchanged :
      (service version : Text)
      → let attrs =
          attr_unless_empty (bytes "service") service
          ++ attr_unless_empty (bytes "version") version in
        map (normalize_field prints) (in_groups [] attrs) ≡ in_groups [] attrs
  unfolding normalize_field normalize_attr ◌=?◌
  static_unchanged [] [] = refl
  static_unchanged [] (v ∷ vs) = refl
  static_unchanged (s ∷ ss) [] = refl
  static_unchanged (s ∷ ss) (v ∷ vs) = refl

  abbrev built_in : Record → List Field
  built_in r = in_groups [] (
      record { key = bytes "ts"; value = time_value r.time }
      ∷ record {
        key = bytes "level";
        value = string_value (prints.to_lower (prints.level_text r.level));
      }
      ∷ record { key = bytes "msg"; value = string_value r.message }
      ∷ [])

  -- The line of a handler whose preset fields start with some that normalizing leaves alone.
  handle-built_in :
      (h : Handler) (statics added : List Field) (attrs : List Attr) (r : Record)
      → h.preset ≡ statics ++ added
      → map (normalize_field prints) statics ≡ statics
      → ltb_ℤ r.level h.level ≡ false
      → handle prints h attrs r
        ≡ some (
            built_in r
            ++ (statics
                ++ (map (normalize_field prints) (added ++ in_groups h.open_groups r.attrs)
                    ++ map (normalize_field prints) (in_groups h.open_groups attrs))))
  unfolding handle line normalize_field normalize_attr ◌=?◌
  handle-built_in h statics added attrs r preset fixed enough =
      rw (enough, preset)
        (ap some (ap (λ t. built_in r ++ t) (simp (map-append, append_assoc, fixed))))

  -- A record that is not below the level of the options is printed by every logger of NewLogger,
  -- however it is derived with attributes and groups; the line starts with the time as ts, the
  -- lower-case level and the message, followed by the service and the version where they are set,
  -- and it ends with the attributes of the context.
  pub lines_are_stamped :
      (opts : LoggerOptions) (ds : List Derivation) (attrs : List Attr) (r : Record)
      → ltb_ℤ r.level opts.level ≡ false
      → let h = derive (new_logger opts) ds in
        (middle : List Field) × (handle prints h attrs r
          ≡ some (
              in_groups [] (
                record { key = bytes "ts"; value = time_value r.time }
                ∷ record {
                  key = bytes "level";
                  value = string_value (prints.to_lower (prints.level_text r.level));
                }
                ∷ record { key = bytes "msg"; value = string_value r.message }
                ∷ static_attrs opts)
              ++ (middle ++ map (normalize_field prints) (in_groups h.open_groups attrs))))
  unfolding new_logger static_attrs
  lines_are_stamped opts ds attrs r enough =
      let statics = static_attrs opts in
      let base : Handler = record { level = opts.level; preset = []; open_groups = [] } in
      let (l, e) = attach-preset base statics in
      let (l', (added, e')) = derive-preset (new_logger opts) ds in
      (
        map (normalize_field prints)
            (added ++ in_groups (derive (new_logger opts) ds).open_groups r.attrs),
        handle-built_in (derive (new_logger opts) ds) (in_groups [] statics) added attrs r
            (e' ∙ ap (λ t. t ++ added) e) (static_unchanged opts.service opts.version)
            (rw (l', l) enough),
      )
