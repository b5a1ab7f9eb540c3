-- ===== src/Miniublk/Control/Program.antt =====
-- `cmd_dev_list`, and the dispatch of miniublk.c's `main`.
use ndt.Base.{ℤ, pos, negsuc, neg, is_neg, not, if◌then◌else◌}
use ndt.Base.{Option, none, some, List, [], ◌∷◌}
use Prim.Native.String.{String}
use text.Mathlib.Text.{◌==◌ as str_eq}
use ndt.Miniublk.Abi.{Abi}
use ndt.Miniublk.Control.Monad.{M, pure}
use ndt.Miniublk.Control.Commands.{Host}
use ndt.Miniublk.Control.Targets.{Backing}
use ndt.Miniublk.Control.Subcommands.{
  Opt, number, cmd_dev_add, cmd_dev_recover, cmd_dev_del, __cmd_dev_list, on_each_device,
}

-- `number` as the options of `list` set it, from what it is at first; `-a` changes nothing.
unfoldable pub list_number : ℤ → List Opt → ℤ
list_number n [] = n
list_number n (number k ∷ os) = list_number k os
list_number n (o ∷ os) = list_number n os

module _ (abi : Abi) (host : Host) (backing : Backing) where
  unfoldable pub cmd_dev_list : List Opt → M ℤ
  cmd_dev_list opts =
      let n = list_number (negsuc 0) opts in
      if not (is_neg n)
      then __cmd_dev_list abi host backing n
      else on_each_device abi host backing (__cmd_dev_list abi host backing) 255 0

  -- What `main` returns for the first argument, if there is one, and the options; the help that it
  -- prints changes nothing.
  unfoldable pub dispatch : Option String → List Opt → M ℤ
  dispatch none opts = pure (neg abi.einval)
  dispatch (some cmd) opts =
      if str_eq cmd "add"
      then cmd_dev_add abi host backing opts
      else (if str_eq cmd "del"
          then cmd_dev_del abi host backing opts
          else (if str_eq cmd "list"
              then cmd_dev_list opts
              else (if str_eq cmd "help"
                  then pure (pos 0)
                  else (if str_eq cmd "recover"
                      then cmd_dev_recover abi host backing opts
                      else pure (neg abi.einval)))))
