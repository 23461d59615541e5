-- ===== src/Lib.antt =====
-- LeakShield's admin panel: the Next.js server that stands between the browser and the gateway, and
-- the screens of its sign-in, its onboarding wizard, its live log and its navigation.
--
-- The panel has no store of its own. Its route handlers check a posted body, and pass it to the
-- gateway with the session's bearer token; the sign-in and the set-up pages ask the gateway who the
-- visitor is and whether an admin exists; the wizard's screens post to those routes and keep their
-- state in React hooks. A handler is a function from the server's surroundings and the posted body to
-- an `Outcome`: the requests that it sends, in order, and its response or exception. A screen is a
-- record of its hooks, with a step per event; a request is a job in flight, which a later event
-- settles with any response or a rejection.
--
-- Parts, and the code that each is about:
--   Base, Js     JavaScript as the panel uses it. Js.Text: strings as UTF-16 code units, `trim`,
--                `includes`; Js.Json: parsed values and how dynamic code reads them; Js.Http: fetch
--                and Response.json; Js.Uri: encodeURIComponent; Js.Email: the pattern of the three
--                checks of an address, with its meaning in Js.Email.Spec.
--   Env          panel/lib/env.ts (PUBLIC_API_URL, getInternalGatewayUrl)
--   Proxy        panel/lib/admin-proxy.ts (proxyToGateway, readJsonBody)
--   Routes       panel/app/api/admin: users/route.ts (Users), users/[id]/keys/route.ts (Keys),
--                providers/route.ts and providers/test/route.ts (Providers), me/route.ts
--                (current_admin); Body has the steps that the handlers share.
--   Setup        panel/lib/setup-status.ts (Probe), panel/app/api/setup/status/route.ts (Status),
--                panel/app/api/setup/bootstrap/route.ts
--                (Bootstrap), panel/app/page.tsx, panel/app/(auth)/sign-in/page.tsx and
--                panel/app/super-admin/page.tsx (Entry)
--   Auth         panel/auth.ts (authorize, and the callbacks jwt and session; Sessions; Bearer: the
--                token that a handler then sends), panel/app/(auth)/sign-in/sign-in-form.tsx (Form:
--                the form and its runs)
--   Onboarding   panel/app/(onboarding)/onboarding/[step]/page.tsx and, of the files in
--                panel/components/onboarding, onboarding-step.tsx (Wizard: the page of a step and its
--                links; Walk: every way out of a page; Trail: walks of many steps), step-1-create-admin.tsx
--                (Admin: the hooks and handlers; Slug: slugify; View; Validated and Posted: the
--                form against the set-up route; Runs: its runs; Created: when the wizard goes on;
--                Credentials: whom the sign-in names), step-2-provider.tsx (Provider; Form:
--                isFormValid, buildConfig; Screen: the hooks and handlers of Step2Provider, and
--                Screen.Banner: its probe; Tiles, View: what is shown; Saved: ProviderList),
--                step-3-user.tsx (Account: Step3User), step-3-user-client.tsx (User; State: the
--                hooks; Issued: the runs, and what the reveal pane can show; Accepted: the form
--                against the users route; View; Live: the buttons at work; Users: UsersList) and
--                step-4-categories.tsx (Categories)
--   Logs         panel/hooks/use-log-stream.ts, panel/components/logs/live-log-table.tsx and
--                panel/components/layout/connection-indicator.tsx (Rows, Table: what is shown); Relay:
--                panel/app/api/stream/logs/route.ts (Answers: every branch; Query: the parameters)
--   Panel        panel/components/layout/sidebar.tsx and panel/lib/stores/ui-store.ts (Sidebar),
--                panel/i18n/request.ts (Locale), panel/lib/stores/modal-store.ts (Modals; Closing; Ids),
--                panel/components/providers/query-provider.tsx (Retry),
--                panel/components/layout/topbar.tsx, tenant-switcher.tsx beside it and
--                panel/app/(app)/layout.tsx (Topbar)
--   Policy       of panel/components/policy, policy-editor-workspace.tsx and policy-editor-loader.tsx
--                (the draft in the editor; Draft), and categories-editor.tsx (Categories)
--   Pages        the pages of panel/app/(app), in panel/components/layout/page-shell.tsx, with
--                coming-soon-banner.tsx beside it (Accounts; Activity; Settings)
--   Api          panel/lib/api/client.ts (the settings of the client)
--   Tests        every theorem with conditions at a concrete input
--
-- Parameters. The gateway is a function from requests to responses or rejections, with no
-- assumption. The engine's messages for its own errors, its `URL` objects, `normalize`,
-- `toLowerCase`, `toUpperCase`, `toLocaleTimeString` and the comparison of an own `length` property
-- with 8 are arguments. A number of a JSON document is kept as its printed form, since the panel
-- only forwards and prints numbers. The token of the session that a handler sees is a text, as the
-- panel's types say; panel/auth.ts keeps what the gateway names, and a truthy token of another
-- kind, which a handler would put into its header as it prints, is modelled in the session only.
-- The one assumption is of `toLowerCase`, in Onboarding.User.Accepted: an address that passes the
-- pattern still passes it in lower case. An exception that reaches a route handler is its result;
-- one that leaves an action of a screen unmounts the screen (`crashed`). The relay of events looks
-- at no byte of the stream, whose type is a parameter.
--
-- Bounds. Loops over texts, lists and documents are structural. Only the printing of a whole number
-- takes fuel, one more than the number, which bounds its digits.
--
-- Not modelled: the gateway (Go), the inspector (Python) and the deployment, which are other
-- programs; the style sheets and the presentational components; the chart of sample data and the
-- logo. Abort timers are a request's `timeout_ms`: a request that is aborted is rejected.
pub mod Base
pub mod Js
pub mod Env
pub mod Api
pub mod Proxy
pub mod Routes
pub mod Setup
pub mod Auth
pub mod Onboarding
pub mod Logs
pub mod Panel
pub mod Policy
pub mod Pages
pub mod Tests
