-- ===== src/Container/Resolve.antt =====
-- The builders succeed, and what the programs ask their containers for can be built.
use service_template.Base.{
  true, none, some, List, [], ◌∷◌, ◌++◌, ◌≡◌, refl, ◌∙◌, ap, sym, inl, inr, Option-cases, All, map,
}
use mathlib.Core.Path.{subst}
use mathlib.Core.Option.{some-injective, none-ne-some}
use mathlib.Core.List.{append-nil, append_assoc}
use service_template.Container.{Provider, Dig, Step, must, attempt, run_steps, build, provides}
use service_template.Container.Order.{
  Resolvable, fits, orderly, all_provided, and-true, fits-Fitting, all_provided-Resolvable,
}
use service_template.Container.Builders.{
  Program, http_server_program, grpc_server_program, cron_job_program, consumer_program,
  background_rabbit_program, steps_of, arguments_of, http_server, grpc_server, cron_program,
  consumers, background_rabbit_mq, http_server_arguments, grpc_server_arguments, cron_arguments,
  consumer_dependencies, rabbit_background_dependencies,
}

abbrev pub provider_of : Step → Provider
provider_of (must p) = p
provider_of (attempt p) = p

-- The container after one provider that fits.
record Added (dig : Dig) (c : dig.Container) (p : Provider) : Type 0 where
  container : dig.Container
  provided : dig.provide p c ≡ some container
  holds : dig.providers container ≡ dig.providers c ++ p ∷ []

provide-fits :
    (dig : Dig) (c : dig.Container) (p : Provider) → fits (dig.providers c) p ≡ true → Added dig c p
provide-fits dig c p h =
    let fit = fits-Fitting (dig.providers c) p h in
    let (c', provided, holds) = dig.provide-first p c fit.first fit.untaken fit.apart in
    record { container = c'; provided = provided; holds = holds }

-- The container after steps that succeed.
pub record Ran (dig : Dig) (steps : List Step) (c : dig.Container) : Type 0 where
  pub container : dig.Container
  pub ran : run_steps dig steps c ≡ some container
  pub holds : dig.providers container ≡ dig.providers c ++ map provider_of steps

run_steps-provided :
    (dig : Dig) (s : Step) (steps : List Step) (c c' : dig.Container)
    → dig.provide (provider_of s) c ≡ some c'
    → run_steps dig (s ∷ steps) c ≡ run_steps dig steps c'
unfolding run_steps
run_steps-provided dig (must p) steps c c' e =
    let e' : dig.provide p c ≡ some c' = e in rw (e', run_steps)
run_steps-provided dig (attempt p) steps c c' e =
    let e' : dig.provide p c ≡ some c' = e in rw (e', run_steps)

run_steps-Ran :
    (dig : Dig) (steps : List Step) (c : dig.Container)
    → orderly (dig.providers c) (map provider_of steps) ≡ true
    → Ran dig steps c
run_steps-Ran dig [] c h = record {
  container = c;
  ran = unfold run_steps in refl;
  holds = sym (append-nil (dig.providers c));
}
run_steps-Ran dig (s ∷ steps) c h =
    let p = provider_of s in
    let (fit, later) = and-true _ _ h in
    let one = provide-fits dig c p fit in
    let more =
      run_steps-Ran dig steps one.container
        (ap (λ ps. orderly ps (map provider_of steps)) one.holds ∙ later) in
    record {
      container = more.container;
      ran = run_steps-provided dig s steps c one.container one.provided ∙ more.ran;
      holds =
          more.holds
          ∙ ap (λ ps. ps ++ map provider_of steps) one.holds
          ∙ append_assoc (dig.providers c) (p ∷ []) (map provider_of steps);
    }

-- What a program is to have from its builder.
pub record Started (dig : Dig) (program : Program) : Type 0 where
  pub container : dig.Container
  pub built : build dig (steps_of program) ≡ some container
  pub holds : dig.providers container ≡ map provider_of (steps_of program)
  pub resolves : All (Resolvable (dig.providers container)) (arguments_of program)

steps-orderly : (program : Program) → orderly [] (map provider_of (steps_of program)) ≡ true
unfolding steps_of http_server grpc_server cron_program consumers background_rabbit_mq
steps-orderly http_server_program = refl
steps-orderly grpc_server_program = refl
steps-orderly cron_job_program = refl
steps-orderly consumer_program = refl
steps-orderly background_rabbit_program = refl

arguments-provided :
    (program : Program)
    → all_provided (arguments_of program) (map provider_of (steps_of program)) ≡ true
unfolding steps_of http_server grpc_server cron_program consumers background_rabbit_mq arguments_of
    http_server_arguments grpc_server_arguments cron_arguments consumer_dependencies
    rabbit_background_dependencies
arguments-provided http_server_program = refl
arguments-provided grpc_server_program = refl
arguments-provided cron_job_program = refl
arguments-provided consumer_program = refl
arguments-provided background_rabbit_program = refl

-- With any dig that does what it documents, the builder of each program comes to an end without
-- `log.Fatalf`, with all its providers in the container, those of the cron too; and all that the
-- program then asks the container for can be built from them.
pub build-Started : (dig : Dig) (program : Program) → Started dig program
build-Started dig program =
    let steps = steps_of program in
    let start =
      ap (λ ps. orderly ps (map provider_of steps)) dig.providers-new ∙ steps-orderly program in
    let r = run_steps-Ran dig steps dig.new start in
    let holds = r.holds ∙ ap (λ ps. ps ++ map provider_of steps) dig.providers-new in
    record {
      container = r.container;
      built = unfold build in r.ran;
      holds = holds;
      resolves =
          subst (λ ps. All (Resolvable ps) (arguments_of program)) (sym holds)
            (all_provided-Resolvable (map provider_of steps) (arguments_of program)
              (steps-orderly program) (arguments-provided program));
    }

run_steps-refused :
    (dig : Dig) (p : Provider) (steps : List Step) (c : dig.Container)
    → dig.provide p c ≡ none
    → run_steps dig (must p ∷ steps) c ≡ none
unfolding run_steps
run_steps-refused dig p steps c refusal = rw (refusal, run_steps)

run_steps-skipped :
    (dig : Dig) (p : Provider) (steps : List Step) (c : dig.Container)
    → dig.provide p c ≡ none
    → run_steps dig (attempt p ∷ steps) c ≡ run_steps dig steps c
unfolding run_steps
run_steps-skipped dig p steps c refusal = rw (refusal, run_steps)

run_steps-append :
    (dig : Dig) (steps more : List Step) (c c' : dig.Container)
    → run_steps dig steps c ≡ some c'
    → run_steps dig (steps ++ more) c ≡ run_steps dig more c'
run_steps-append dig [] more c c' e =
    let same : c ≡ c' = some-injective c c' (unfold run_steps in e) in rw same
run_steps-append dig (must p ∷ steps) more c c' e = elim (Option-cases (dig.provide p c)) [
  | inl refusal ↦
      let ends : run_steps dig (must p ∷ steps) c ≡ none =
        run_steps-refused dig p steps c refusal in
      absurd (none-ne-some c' (sym ends ∙ e))
  | inr (d, taken) ↦
      run_steps-provided dig (must p) (steps ++ more) c d taken
      ∙ run_steps-append dig steps more d c'
          (sym (run_steps-provided dig (must p) steps c d taken) ∙ e)
]
run_steps-append dig (attempt p ∷ steps) more c c' e = elim (Option-cases (dig.provide p c)) [
  | inl refusal ↦
      run_steps-skipped dig p (steps ++ more) c refusal
      ∙ run_steps-append dig steps more c c' (sym (run_steps-skipped dig p steps c refusal) ∙ e)
  | inr (d, taken) ↦
      run_steps-provided dig (attempt p) (steps ++ more) c d taken
      ∙ run_steps-append dig steps more d c'
          (sym (run_steps-provided dig (attempt p) steps c d taken) ∙ e)
]

-- A builder that goes on to provide a type and name a second time ends the program, whatever it does
-- afterwards, unless it leaves the error out, as two steps of the cron's builder do: it goes on then
-- as if the step were not there.
pub build-again :
    (dig : Dig) (program : Program) (p : Provider) (more : List Step)
    → provides p.output (map provider_of (steps_of program)) ≡ true
    → (build dig (steps_of program ++ must p ∷ more) ≡ none)
      × (build dig (steps_of program ++ attempt p ∷ more) ≡ build dig (steps_of program ++ more))
build-again dig program p more h =
    let start = build-Started dig program in
    let steps = steps_of program in
    let built : run_steps dig steps dig.new ≡ some start.container = unfold build in start.built in
    let go_on =
      λ (later : List Step). run_steps-append dig steps later dig.new start.container built in
    let twice = dig.provide-twice p start.container (ap (provides p.output) start.holds ∙ h) in
    unfold build in
    (
      go_on (must p ∷ more) ∙ run_steps-refused dig p more start.container twice,
      go_on (attempt p ∷ more)
          ∙ run_steps-skipped dig p more start.container twice
          ∙ sym (go_on more),
    )
