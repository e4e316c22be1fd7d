-- ===== src/Container/Examples.antt =====
-- A dig for the witnesses, whose container is the list of its providers, and the theorems there.
use service_template.Base.{◌||◌, Option, none, some, List, [], ◌∷◌, ◌++◌, refl, if◌then◌else◌}
use service_template.Container.Keys.{logger}
use service_template.Container.{Provider, Dig, contains_key, provides}
use service_template.Container.Builders.{consumer_program}
use service_template.Container.Resolve.{Started, build-Started}

abbrev list_provide : Provider → List Provider → Option (List Provider)
list_provide p c =
    if provides p.output c || contains_key p.output p.inputs then none else some (c ++ p ∷ [])

abbrev list_dig : Dig
list_dig = record {
  Container = List Provider;
  new = [];
  provide = list_provide;
  providers = λ c. c;
  providers-new = refl;
  provide-twice = λ p c h. rw h;
  provide-first = λ p c first untaken apart. (c ++ p ∷ [], rw (first, apart), refl);
}

build-Started_example : Started list_dig consumer_program
build-Started_example = build-Started list_dig consumer_program

abbrev second_logger : Provider
second_logger = record { output = logger; inputs = []; settings = [] }
