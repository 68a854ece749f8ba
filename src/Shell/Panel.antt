-- ===== src/Shell/Panel.antt =====
-- web/privasys-shell.js, showAuthFallback: what a click on the fallback panel does.
use attested_harness.Common.{
  ap, ℕ, zero, suc, ◌≡◌, refl, ◌∙◌, Bool, true, false, List, [], ◌∷◌, Text, codes, strip_prefix,
  ◌||◌, if◌then◌else◌,
}
use attested_harness.Page.{bubble, fire}
use attested_harness.Page.Builder.{of_text, el, add_attribute, add_children}
use attested_harness.Page.Clicks.{fire_in-nothing, fire-leaf}
use attested_harness.Shell.Views.{box, sign_in_button, Pressed, calls_run, fallback_panel}

abbrev on_button : List ℕ → List Pressed
on_button [] = []
on_button (zero ∷ path) = []
on_button (suc zero ∷ path) = []
on_button (suc (suc zero) ∷ path) = calls_run ∷ []
on_button (suc (suc (suc i)) ∷ path) = []

module _ (source_of : Pressed → Text) (stops : Pressed → Bool) where
  fire-box :
      (path : List ℕ) (class_name s : Text)
      → fire stops (codes "click") path (box source_of class_name (of_text s ∷ [])) ≡ ([], false)
  unfolding fire el add_attribute add_children strip_prefix
  fire-box path class_name s =
      fire-leaf stops (codes "click") path (codes "div") ((codes "class", class_name) ∷ []) [] s

  button_calls : (b : Bool) → (bubble stops [] (calls_run ∷ [], b)).0 ≡ calls_run ∷ []
  button_calls true = refl
  button_calls false = refl

  fire-button :
      (path : List ℕ)
      → fire stops (codes "click") path (sign_in_button source_of)
        ≡ (calls_run ∷ [], stops calls_run || false)
  unfolding fire el add_attribute add_children strip_prefix
  fire-button path =
      fire-leaf stops (codes "click") path (codes "button")
        ((codes "class", codes "pv-btn pv-btn-primary") ∷ []) ((codes "click", calls_run) ∷ [])
        (codes "Sign in")

  above : (r s : List Pressed × Bool) → r ≡ s → (bubble stops [] r).0 ≡ (bubble stops [] s).0
  above r s e = ap (λ (r : List Pressed × Bool). (bubble stops [] r).0) e

  -- On the fallback panel a click on the button, or on the text in it, calls `run`, once; and no
  -- other click calls anything.
  pub fallback_panel-click :
      (message : Text) (closed : Bool) (path : List ℕ)
      → (fire stops (codes "click") path (fallback_panel source_of message closed)).0
        ≡ on_button path
  unfolding fire fallback_panel el add_attribute add_children strip_prefix
  fallback_panel-click message closed [] = refl
  fallback_panel-click message closed (zero ∷ path) = above _ _ (
      fire-box path (codes "pv-card-title")
        (if closed then codes "Sign-in closed" else codes "Sign-in problem"))
  fallback_panel-click message closed (suc zero ∷ path) =
      above _ _ (fire-box path (codes "pv-card-sub") message)
  fallback_panel-click message closed (suc (suc zero) ∷ path) =
      above _ _ (fire-button path) ∙ button_calls (stops calls_run || false)
  fallback_panel-click message closed (suc (suc (suc i)) ∷ path) =
      above _ _ (fire_in-nothing stops (codes "click") path i)
