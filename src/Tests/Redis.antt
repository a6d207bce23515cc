-- ===== src/Tests/Redis.antt =====
-- The forwarding of the Redis broker, on a few messages.
use sentinel_flow_event_driv.Base.{
  ◌≡◌, String, Option, none, some, List, [], ◌∷◌, ◌++◌, str_eq, if◌then◌else◌,
}
use sentinel_flow_event_driv.Redis.Forward.{Forwarder, ForwardStep, new_forwarder}
use sentinel_flow_event_driv.Redis.Forward.Order.{
  run, arrived, taken, decodable, unsent, IsGoing, forwards_in_order,
}

abbrev read_name : String → Option String
read_name text = if str_eq text "{" then none else some text

abbrev steps : List ForwardStep
steps =
    ForwardStep.arrives "{"
    ∷ ForwardStep.arrives "a"
    ∷ ForwardStep.turns
    ∷ ForwardStep.turns
    ∷ ForwardStep.turns
    ∷ ForwardStep.arrives "b"
    ∷ ForwardStep.takes
    ∷ ForwardStep.ends
    ∷ []

forwards_in_order_example :
    let f : Forwarder String = new_forwarder 1 in
    (rest : List String) × (taken read_name steps f ++ (run read_name steps f).out.buffer ++ rest
      ≡ decodable read_name (arrived read_name steps f))
    × (IsGoing read_name steps → rest ≡ unsent read_name (run read_name steps f))
forwards_in_order_example = forwards_in_order read_name 1 steps
