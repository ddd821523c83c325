-- ===== src/Log/Filter.antt =====
-- log.go: what a sequence of calls writes.
use smudge.Prelude.{
  ◌≡◌, refl, sym, ap, ◌∙◌, Bool-cases, inl, inr, true, List, [], ◌∷◌, ◌++◌, map, append_assoc,
  append-nil, leb,
}
use smudge.Prelude.Count.{keep}
use smudge.Prelude.Text.{Text}
use smudge.Log.{
  Entry, Logger, default_logger, plugged, Output, stderr, handed, Logging, prefix, text_of, print,
  default_log, hand_over, log,
}

-- The calls one after another.
unfoldable pub log_each : Text → Logging → List Entry → Logging
log_each stamp l [] = l
log_each stamp l (e ∷ entries) = log_each stamp (log stamp l e) entries

-- What an entry looks like at its destination.
abbrev pub output_of : Text → Logger → Entry → Output
output_of stamp default_logger e = stderr (text_of (prefix stamp e.level) e.content)
output_of stamp (plugged k) e = handed k e

hand_over-loud :
    (stamp : Text) (l : Logging) (logger : Logger) (e : Entry)
    → leb l.log_threshhold e.level ≡ true
    → hand_over stamp l logger e ≡ print l (output_of stamp logger e)
unfolding hand_over default_log
hand_over-loud stamp l default_logger e h = rw h refl
hand_over-loud stamp l (plugged k) e h = refl

-- The calls leave what was written before, and behind it write the entries of the threshold's level and
-- above, in order, and no others: the default logger's own test drops none of them.
pub log_each-keep :
    (stamp : Text) (entries : List Entry) (l : Logging)
    → log_each stamp l entries ≡ record l {
      outputs =
          l.outputs
          ++ map (output_of stamp l.logger) (keep (λ e. leb l.log_threshhold e.level) entries);
    }
unfolding log_each log keep
log_each-keep stamp [] l = ap (λ out. record l { outputs = out }) (sym (append-nil l.outputs))
log_each-keep stamp (e ∷ entries) l = elim (Bool-cases (leb l.log_threshhold e.level)) [
  | inr quiet ↦ rw quiet (log_each-keep stamp entries l)
  | inl loud ↦
      rw (loud, hand_over-loud stamp l l.logger e loud)
        (log_each-keep stamp entries (print l (output_of stamp l.logger e))
          ∙ ap (λ out. record l { outputs = out })
              (append_assoc l.outputs (output_of stamp l.logger e ∷ []) _))
]
