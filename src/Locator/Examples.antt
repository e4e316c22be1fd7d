-- ===== src/Locator/Examples.antt =====
-- A container with one requirement, and the theorems there.
use service_template.Base.{refl, true, false, str_eq, none, some, [], ◌∷◌, if◌then◌else◌}
use service_template.Locator.{Service, Container, Locators, get_for_locator}
use service_template.Locator.Set.{Kept, set_service-Kept}

abbrev postgres : Service
postgres = record { address = 1; is_containerized = false }

abbrev handler : Service
handler = record { address = 2; is_containerized = true }

abbrev container : Container
container = record {
  services = λ k. none;
  requirements = λ k. if str_eq k "postgres" then some (some postgres) else none;
}

abbrev no_locators : Locators
no_locators = λ p. none

set_service-Kept_example : Kept "handler" handler ("postgres" ∷ []) container no_locators
unfolding get_for_locator
set_service-Kept_example =
    set_service-Kept "handler" handler ("postgres" ∷ []) container no_locators refl refl (refl, tt)
      (refl, tt)
