-- ===== src/Examples/Linking.antt =====
-- New names in the namespace of Examples/Placing, by lib/fs-broker/broker.js.
use countinghouse.Prelude.{◌≤◌, Bool, true, false, [], Option, none, arith}
use countinghouse.Prelude.Text.{Text, codes}
use countinghouse.Broker.Place.{Placed}
use countinghouse.Broker.Names.{Node, Broker, rename, link, symlink}
use countinghouse.Broker.Names.Bound.{
  Asks, IsBoundRename, IsBoundLink, IsBoundSymlink, at_first, at_second, names-AreBound,
}
use countinghouse.Examples.Placing.{
  dirname, basename, join, plain_host, namespace, state, cache-IsSound,
}

abbrev broker : Broker
broker = record { state = state; quota = none; reports = []; calls = [] }

abbrev no_node : Placed → Option Node
no_node p = none

abbrev resolved : Text → Text → Text
resolved v target = codes "/data/y"

abbrev is_absolute : Text → Bool
is_absolute target = false

in_order : 1000 ≤ 1000
in_order = omega arith

names-AreBound_example :
    Asks (IsBoundRename dirname basename join plain_host namespace 1000 1000 in_order) broker (
      rename
        (at_first dirname basename join plain_host namespace 1000 1000 in_order)
        (at_second dirname basename join plain_host namespace 1000 1000 in_order)
        no_node
        true
        (codes "/data/y")
        (codes "/data/x")
        broker)
    × Asks (IsBoundLink dirname basename join plain_host namespace 1000 1000 in_order) broker (
        link
          (at_first dirname basename join plain_host namespace 1000 1000 in_order)
          (at_second dirname basename join plain_host namespace 1000 1000 in_order)
          no_node
          true
          (codes "/data/y")
          (codes "/data/x")
          broker)
    × Asks
        (IsBoundSymlink dirname basename join plain_host namespace 1000 1000 in_order no_node true
          resolved is_absolute)
        broker
        (symlink
          (at_first dirname basename join plain_host namespace 1000 1000 in_order)
          (at_second dirname basename join plain_host namespace 1000 1000 in_order)
          no_node
          true
          resolved
          is_absolute
          (codes "y")
          (codes "/data/x")
          broker)
names-AreBound_example =
    names-AreBound dirname basename join plain_host namespace 1000 1000 in_order no_node true
      resolved is_absolute (codes "/data/y") (codes "/data/x") (codes "y") broker cache-IsSound
