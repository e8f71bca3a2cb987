-- ===== src/Function.antt =====
-- final_project/framework/src/function/function.hpp: `Function<RET(void)>` and `Function<RET(ARG)>`, a
-- shared pointer to a bound call. The code that is called works on the program's state `W`; the types
-- `T` of the object and `BIND_ARG` of the bound argument are parameters, and `T *` is the type `Object`.
use private_distributed_clou.Prelude.{Option, none, some}
use private_distributed_clou.Run.{Run, fault}

-- `Function<RET(void)>::IFunction` by its two derived classes.
pub data IFunction (W Object BindArg Ret : Type 0) : Type 0 where
  free_function : (BindArg → W → Run (Ret × W)) → BindArg → IFunction W Object BindArg Ret
  member_function :
      (Object → BindArg → W → Run (Ret × W)) → Object → BindArg → IFunction W Object BindArg Ret

-- The virtual call `Run()`.
unfoldable pub run_bound :
    {W Object BindArg Ret : Type 0} → IFunction W Object BindArg Ret → W → Run (Ret × W)
run_bound (free_function callable arg) w = callable arg w
run_bound (member_function callable object arg) w = callable object arg w

-- `Function<RET(void)>`; a default-constructed one has the null pointer.
pub record Function (W Object BindArg Ret : Type 0) : Type 0 where
  pub ifunction : Option (IFunction W Object BindArg Ret)

module _ {W Object BindArg Ret : Type 0} where
  -- The three constructors.
  unfoldable pub empty_function : Function W Object BindArg Ret
  empty_function = record { ifunction = none }

  unfoldable pub bind_free : (BindArg → W → Run (Ret × W)) → BindArg → Function W Object BindArg Ret
  bind_free callable arg = record { ifunction = some (free_function callable arg) }

  unfoldable pub bind_member :
      (Object → BindArg → W → Run (Ret × W)) → Object → BindArg → Function W Object BindArg Ret
  bind_member callable object arg = record {
    ifunction = some (member_function callable object arg);
  }

  -- `operator()()`.
  unfoldable pub invoke : Function W Object BindArg Ret → W → Run (Ret × W)
  unfolding run_bound
  invoke f w = elim f.ifunction [ none ↦ fault | some bound ↦ run_bound bound w ]

-- `Function<RET(INVOCATION_ARG)>::IFunction`, and the class around it.
pub data ArgIFunction (W Object Arg Ret : Type 0) : Type 0 where
  free_arg_function : (Arg → W → Run (Ret × W)) → ArgIFunction W Object Arg Ret
  member_arg_function : (Object → Arg → W → Run (Ret × W)) → Object → ArgIFunction W Object Arg Ret

unfoldable pub run_with :
    {W Object Arg Ret : Type 0} → ArgIFunction W Object Arg Ret → Arg → W → Run (Ret × W)
run_with (free_arg_function callable) arg w = callable arg w
run_with (member_arg_function callable object) arg w = callable object arg w

pub record ArgFunction (W Object Arg Ret : Type 0) : Type 0 where
  pub ifunction : Option (ArgIFunction W Object Arg Ret)

-- Its constructors.
unfoldable pub bind_arg_free :
    {W Object Arg Ret : Type 0} → (Arg → W → Run (Ret × W)) → ArgFunction W Object Arg Ret
bind_arg_free callable = record { ifunction = some (free_arg_function callable) }

unfoldable pub bind_arg_member :
    {W Object Arg Ret : Type 0}
    → (Object → Arg → W → Run (Ret × W))
    → Object
    → ArgFunction W Object Arg Ret
bind_arg_member callable object = record { ifunction = some (member_arg_function callable object) }

-- `operator()(arg)`.
unfoldable pub invoke_with :
    {W Object Arg Ret : Type 0} → ArgFunction W Object Arg Ret → Arg → W → Run (Ret × W)
unfolding run_with
invoke_with f arg w = elim f.ifunction [ none ↦ fault | some bound ↦ run_with bound arg w ]
