-- ===== src/AlertGenerator/MultiError.antt =====
-- alert_generator/utils.go, multiError; server.go, runningError; testsuite.go, Error. A nil error is
-- `none`. The errors of other packages are of a type `E`; their texts and the printing of numbers
-- are parameters.
use Prim.Native.String.{◌++◌ as ◌<>◌}
use compliance.Base.{
  ℕ, suc, ltb, ◌≡◌, ◌↔◌, ◌⊎◌, ap, refl, arith, String, Bool, true, List, [], ◌∷◌, ◌++◌, map,
  append-nil, append_assoc, join, Option, none, some, Option-cases, if◌then◌else◌,
}
use compliance.AlertGenerator.RemoteWrite.{Writer, read}

mutual
  -- An error of another package, one that errors.Wrap made, or a nonNilMultiError.
  pub data GoError (E : Type 0) : Type 0 where
    external : E → GoError E
    wrapped : String → GoError E → GoError E
    multi : Errors E → GoError E

  pub data Errors (E : Type 0) : Type 0 where
    no_error : Errors E
    more : GoError E → Errors E → Errors E

module _ {E : Type 0} where
  abbrev list_of : Errors E → List (GoError E)
  list_of no_error = []
  list_of (more e es) = e ∷ list_of es

  abbrev errors_of_list : List (GoError E) → Errors E
  errors_of_list [] = no_error
  errors_of_list (e ∷ es) = more e (errors_of_list es)

  -- errors.Wrap, of a library: nil stays nil.
  abbrev wrap_error : Option (GoError E) → String → Option (GoError E)
  wrap_error none message = none
  wrap_error (some e) message = some (wrapped message e)

  -- Add.
  unfoldable pub add : List (Option (GoError E)) → List (GoError E) → List (GoError E)
  add [] es = es
  add (none ∷ errs) es = add errs es
  add (some (multi merr) ∷ errs) es = add errs (es ++ list_of merr)
  add (some (external e) ∷ errs) es = add errs (es ++ external e ∷ [])
  add (some (wrapped s e) ∷ errs) es = add errs (es ++ wrapped s e ∷ [])

  -- NewMulti.
  unfoldable new_multi : List (Option (GoError E)) → List (GoError E)
  unfolding add
  new_multi errs = add errs []

  -- Err.
  unfoldable pub err_of : List (GoError E) → Option (GoError E)
  err_of [] = none
  err_of (e ∷ es) = some (multi (errors_of_list (e ∷ es)))

-- Error of nonNilMultiError; errors.Wrap puts its message in front.
module _ {E : Type 0} (external_text : E → String) (decimal : ℕ → String) where
  abbrev count : Errors E → ℕ
  count no_error = 0
  count (more _ es) = suc (count es)

  unfoldable mutual
    error_text : GoError E → String
    error_text (external e) = external_text e
    error_text (wrapped message e) = message <> ": " <> error_text e
    error_text (multi es) =
        (if ltb 1 (count es) then decimal (count es) <> " errors: " else "") <> first_text es

    first_text : Errors E → String
    first_text no_error = ""
    first_text (more e es) = error_text e <> later_texts es

    later_texts : Errors E → String
    later_texts no_error = ""
    later_texts (more e es) = "; " <> error_text e <> later_texts es

-- serverErr and serverCloseErr of the alert server.
pub record ServerErrors (E : Type 0) : Type 0 where
  pub server_err : Option (GoError E)
  pub server_close_err : Option (GoError E)

module _ {E : Type 0} (is_server_closed : GoError E → Bool) where
  -- The first statement of runningError: http.ErrServerClosed counts as no error.
  unfoldable forget_closed : ServerErrors E → ServerErrors E
  forget_closed s = elim s.server_err [
    | none ↦ s
    | some e ↦ if is_server_closed e then record s { server_err = none } else s
  ]

  -- runningError, after it.
  unfoldable running_error : ServerErrors E → Option (GoError E)
  unfolding new_multi err_of
  running_error s = err_of (
      new_multi (
        wrap_error s.server_err "http server"
        ∷ wrap_error s.server_close_err "http server close"
        ∷ []))

  -- Error of TestSuite: its result; the writer after it is `read w` and the server
  -- `forget_closed s`.
  unfoldable pub suite_error :
      {L V W : Type 0} → Writer L V W (GoError E) → ServerErrors E → Option (GoError E)
  unfolding add err_of read running_error forget_closed
  suite_error w s = err_of (
      add (wrap_error (running_error (forget_closed s)) "alert server" ∷ [])
        (add (wrap_error (read w).error "remote writer" ∷ []) []))

-- The errors that Add takes from an argument.
abbrev contents : {E : Type 0} → Option (GoError E) → List (GoError E)
contents none = []
contents (some (multi es)) = list_of es
contents (some (external e)) = external e ∷ []
contents (some (wrapped s e)) = wrapped s e ∷ []

module _ {E : Type 0} where
  list_of-errors_of_list : (es : List (GoError E)) → list_of (errors_of_list es) ≡ es
  list_of-errors_of_list [] = refl
  list_of-errors_of_list (e ∷ es) = ap (λ l. e ∷ l) (list_of-errors_of_list es)

  add-contents :
      (errs : List (Option (GoError E))) (es : List (GoError E))
      → add errs es ≡ es ++ join (map contents errs)
  unfolding add
  add-contents [] es = grind (arith, append-nil)
  add-contents (none ∷ errs) es = add-contents errs es
  add-contents (some (multi merr) ∷ errs) es = grind (arith, append_assoc, add-contents errs)
  add-contents (some (external e) ∷ errs) es = grind (arith, append_assoc, add-contents errs)
  add-contents (some (wrapped s e) ∷ errs) es = grind (arith, append_assoc, add-contents errs)

  -- What Err makes of a multi-error, nil or a nonNilMultiError, Add takes apart again: added to any
  -- multi-error it adds the errors of the first one after those of the second, in their order, so
  -- that multi-errors of multi-errors stay flat.
  pub add-err_of : (es acc : List (GoError E)) → add (err_of es ∷ []) acc ≡ acc ++ es
  unfolding err_of
  add-err_of [] acc = add-contents (none ∷ []) acc
  add-err_of (e ∷ es) acc =
      grind (arith, append-nil, add-contents (err_of (e ∷ es) ∷ []) acc, list_of-errors_of_list es)

  -- Error of the suite is nil exactly if the writer has nothing to report, the server has stopped
  -- without an error or with the one that says that it was closed, and closing it gave no error.
  pub suite_error_nil :
      {L V W : Type 0} (is_server_closed : GoError E → Bool) (w : Writer L V W (GoError E))
      (s : ServerErrors E)
      → (suite_error is_server_closed w s ≡ none) ↔ (
          ((read w).error ≡ none)
          × ((s.server_err ≡ none)
              ⊎ ((e : GoError E) × (s.server_err ≡ some e) × (is_server_closed e ≡ true)))
          × (s.server_close_err ≡ none))
  unfolding suite_error running_error forget_closed add new_multi err_of
  suite_error_nil is_server_closed w s = ground (
    arith,
    Option-cases (read w).error,
    Option-cases s.server_err,
    Option-cases s.server_close_err,
  )
