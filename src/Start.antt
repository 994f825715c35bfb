-- ===== src/Start.antt =====
-- internal/controllers/start.go: which controllers are started for the version of the API server, the
-- process of BFE, and the errors of the start.
pub mod Version
pub mod Paths
pub mod Folders
use ingress_bfe.Base.{
  Text, text, ltb, ◌==◌, Bool, true, false, ◌&&◌, if◌then◌else◌, List, [], ◌∷◌, ◌++◌, dir, Error,
  Result, ok, err, none, some,
}
use ingress_bfe.Options.{IngressOptions}

-- `s >= t` for strings: by bytes, from the left
unfoldable pub text_ge : Text → Text → Bool
text_ge s [] = true
text_ge [] (_ ∷ _) = false
text_ge (a ∷ s) (b ∷ t) = let rest = text_ge s t in if a == b then rest else ltb b a

-- The packages with a controller of Ingresses.
pub data IngressApi : Type 0 where
  networking_v1 networking_v1beta1 extensions_v1beta1 : IngressApi

-- The tests of `addController` on the version of the server.
unfoldable pub select_api : Text → Text → IngressApi
unfolding text_ge
select_api major minor =
    if text_ge major (text "1") && text_ge minor (text "19")
    then networking_v1
    else if text_ge major (text "1") && text_ge minor (text "14")
    then networking_v1beta1
    else extensions_v1beta1

-- What the calls of the start return: that of the discovery client, those of `setupWithManager` of
-- the controllers, and those of the manager and of the process.
pub record Platform : Type 0 where
  pub get_config : Error
  pub new_manager : Error
  pub add_healthz_check : Error
  pub add_readyz_check : Error
  -- major and minor version
  pub server_version : Result (Text × Text)
  pub setup_ingress : IngressApi → Error
  pub setup_service : Error
  pub setup_secret : Error
  pub start_process : Error
  pub run_manager : Error

-- `if err != nil { return fmt.Errorf(…) }`, with the text in front of the error
abbrev pub failing : Error → Text → Error → Error
failing none message next = next
failing (some e) message next = some (message ++ e)

-- `AddIngressController` of the three packages: its message hides the error.
abbrev pub add_ingress_controller : IngressApi → Error → Error
add_ingress_controller api none = none
add_ingress_controller networking_v1 (some e) = some (text "unable to create ingress controller")
add_ingress_controller networking_v1beta1 (some e) =
    some (text "unable to create ingress controller")
add_ingress_controller extensions_v1beta1 (some e) =
    some (text "unable to create service controller")

-- `AddServiceController` and `AddSecretController`, the same
abbrev pub add_object_controller : Error → Error
add_object_controller none = none
add_object_controller (some e) = some (text "unable to create ingress controller")

abbrev pub api_message : IngressApi → Text
api_message networking_v1 = text "unable to create controller Ingress(netwokingv1): "
api_message networking_v1beta1 = text "unable to create controller Ingress(netwokingv1beta1): "
api_message extensions_v1beta1 = text "unable to create controller Ingress(extensionsv1beta1): "

abbrev pub add_controllers : Platform → IngressApi → Error
add_controllers p api =
    failing (add_ingress_controller api (p.setup_ingress api)) (api_message api) (
      failing (add_object_controller p.setup_service) (text "unable to create controller Service: ")
        (failing (add_object_controller p.setup_secret)
          (text "unable to create controller secret: ") none))

-- `addController`
unfoldable pub add_controller : Platform → Error
unfolding select_api
add_controller p = elim p.server_version [
  | err e ↦ some (text "unable to get k8s cluster version: " ++ e)
  | ok (major, minor) ↦ add_controllers p (select_api major minor)
]

-- The process of BFE: the binary, its arguments and its working directory.
pub record Command : Type 0 where
  pub path : Text
  pub arguments : List Text
  pub directory : Text

-- The command of `startBFE`.
abbrev pub bfe_command : IngressOptions → Command
bfe_command opts = record {
  path = opts.bfe_binary;
  arguments = text "-c" ∷ text "../conf" ∷ text "-l" ∷ text "../log" ∷ text "-s" ∷ [];
  directory = dir opts.bfe_binary;
}

-- `startBFE`, with the error of the start of the process
abbrev pub start_bfe : Error → Error
start_bfe e = failing e (text "fail to start bfe: ") none

-- `if err != nil { return err }`
abbrev pub or_next : Error → Error → Error
or_next none next = next
or_next (some e) next = some e

-- `Start`
unfoldable pub start : Platform → Error
unfolding add_controller
start p = failing p.get_config (text "unable to get client config: ") (
    failing p.new_manager (text "unable to start controller manager: ") (
      failing p.add_healthz_check (text "unable to set up health check: ") (
        failing p.add_readyz_check (text "unable to set up ready check: ") (
          or_next (add_controller p) (
            or_next (start_bfe p.start_process)
              (failing p.run_manager (text "fail to run manager: ") none))))))
