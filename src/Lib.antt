-- ===== src/Lib.antt =====
-- miniziti-operator keeps OpenZiti in step with Kubernetes resources. This library models its core:
-- the sync of Entra application roles to role attributes of OpenZiti identities, the reconcilers of
-- identities, services and access policies, and the client of the OpenZiti management API.
--
-- The parts, and how they interact. A ZitiEntraRoleSync names an application of a directory. Its
-- reconciler (internal/controller/zitientrarolesync_*.go) reads the roles and the groups they are
-- assigned to, the identities of the backend, and the claims that all role syncs have recorded in
-- their status. The planner (internal/rolesync) makes of this a plan: which managed attributes each
-- identity gets. The reconciler records the claims, patches one identity after the other, each
-- against a fresh read, and lets the planner say what the outcomes amount to: the new status and the
-- claims that may be given up. A ZitiAccessPolicy names identities and services by selectors; its
-- reconciler (internal/controller/zitiaccesspolicy_controller.go) resolves them to backend ids and
-- role attributes and creates or updates the policy of the backend. The reconcilers of a ZitiIdentity
-- and of a ZitiService (zitiidentity_controller.go, zitiservice_controller.go) keep one identity with
-- its enrolment Secret, or one service with two configs and the policies of the router that hosts it.
-- All of them reach the backend through the management client (internal/openziti/client), which keeps
-- one session that they share.
--
-- Which file models what:
--   Strings, Maps          what the code uses of the packages strings, slices, maps and sort: texts
--                          compared by code points, case folding by tables that are a parameter, and
--                          Go maps as association lists
--   Errors, Calls          error values as far as the program tells them apart (errors.Is, errors.As),
--                          internal/entra/errors.go; calls to the world as lists, the latest first
--   Credentials            internal/credentials/config.go and runtime.go
--   Entra, Openziti        records of internal/entra/directory.go and internal/openziti/client
--   Entra/Pages            internal/entra/paging.go: readPages
--   Entra/Wire             internal/entra/validation.go; JSON is read by the library
--   Openziti/Policy        internal/openziti/policy
--   Openziti/ServiceModel  internal/openziti/service
--   Openziti/Rest          the details and bodies of the management API that the client uses
--   Openziti/Convert, Bodies  the conversions of internal/openziti/client from details and to bodies
--   Openziti/Client        client.go: the session; in Client/Interleaving its lock sections as steps
--   Openziti/Client/Objects, Pages, Enrollment  the operations of client.go, edge_router.go and
--                          service_edge_router_policy.go on one object, on lists, and on enrolments
--   Api, Api/Conditions    api/v1alpha1, and the helpers for conditions of
--                          internal/controller/reconcile_helpers.go
--   Rolesync/Ownership     ownership.go: recorded claims, their order, owners and conflicts
--   Rolesync/Scope         scope.go: the role scope of an application
--   Rolesync/Matching      matching.go: members, properties and the index of identities
--   Rolesync/Plan, Planner planner.go: BuildPlan, retirement holders, MergeAttributes
--   Rolesync/Retirement    retirement.go: Complete and retirementPending
--   Controller/Helpers     finalizers, and the statuses that markReady and markFailed share
--   Controller/RoleSync    Effects (the calls and their answers), Reads, Writes, Run (runSync),
--                          Retry (retryResult) and Status (persistSyncResult, Reconcile)
--   Controller/AccessPolicy  Selectors, Effects, Run (Reconcile and what it calls)
--   Controller/Service     Effects, Routers (zitiservice_router_policies.go), Backend, Run
--   Controller/Identity    Effects (with internal/openziti/identity), Secrets
--                          (internal/credentials/enrollment_secret.go), Run
--   Examples               runs of the theorems at concrete inputs
--
-- A function keeps its name in lower case with underscores (applyRolePatch is apply_role_patch); the
-- parts of a long function are named for what they do and stand above it. What a method changes in a
-- resource that it holds is returned. Reads, writes and events go through an `Env`, whose answers may
-- depend on every call made before, so that other writers may act between two calls. The session of
-- the client is the fold of the lock sections among the calls. A nil pointer is `none`; where the
-- code dereferences it, the run ends as a panic.
--
-- All loops run over lists but those over pages, which have fuel. Of readPages, one round more than
-- there are endpoints is enough. Of the client's loops, one round more than the list has full pages of
-- 100 is enough, if the backend serves the list by offset and limit; the reads of config types are
-- given the same fuel.
--
-- Parameters: the Unicode tables; FindStatusCondition and SetStatusCondition of apimachinery, with
-- what they document (ApiMeta); IsControlledBy and SetControllerReference; time.ParseDuration and
-- url.Parse; certificate pools; the text of an error, with request ids redacted; Semantic.DeepEqual;
-- the clock; and the answers of the Kubernetes API, of the directory and of the OpenZiti management
-- API. The reconcilers take the answers of the client as a parameter of their own.
--
-- Numbers: durations are counted in nanoseconds; int32 counters of an access policy keep their
-- wrap-around as bit patterns; ports, generations and times are natural numbers, since the API server
-- admits no negative ones; offsets stay far below 2 ^ 63.
--
-- Not modelled: HTTP and OAuth of the directory, the generated REST transport, registration with the
-- manager, log lines, generated code and test doubles.
pub mod Prelude
pub mod Strings
pub mod Maps
pub mod Errors
pub mod Calls
pub mod Credentials
pub mod Entra
pub mod Openziti
pub mod Rolesync
pub mod Api
pub mod Controller
pub mod Examples
