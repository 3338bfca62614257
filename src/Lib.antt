-- ===== src/Lib.antt =====
-- FlashPay, the web client of a service for batches of payments (apps/frontend/src): the state of
-- the client, the code that computes it, and what it renders; and the client that tests its API
-- under load (scripts/load).
--
-- The parts and how they interact
--
-- * The Redux store holds two slices. `Auth.Session` is
--   apps/frontend/src/features/auth/store/authSlice.ts with its types: a state together with the
--   local storage that its reducers write. `Details` is
--   apps/frontend/src/features/batches/store/batchDetailsSlice.ts: for each batch id its detail,
--   progress and stream state. `Details.Reducer.reduce` is the slice's reducer, with one
--   constructor of `Action` for each action. A reducer that mutates its Immer draft is a function
--   to the new state. Objects with ids as keys are association lists in insertion order
--   (`Prelude.Maps`).
-- * `Stream` is apps/frontend/src/features/batches/hooks/useBatchStream.ts, which reads a batch's
--   server-sent events and dispatches to the slice. `Stream.Blocks` is parseEventBlock and the
--   cutting of the buffer, `Stream.Consume` is consumeSseStream with its callback,
--   `Stream.Connect` the loop `connect` and the effect with its cleanup. All asynchrony is in the
--   arguments: a list of reads for a stream and a list of attempts for the loop say what the
--   network answers and at which awaits the cleanup of the page runs, so that every interleaving
--   of the two is a list. The functions recurse on these lists. Where a list ends, the
--   environment has given no further answer, and the run so far is returned; nothing runs on
--   fuel. The result is the list of effects, of which the dispatched actions are run through the
--   reducer of `Details`.
-- * `Batch` is apps/frontend/src/features/batches/types/index.ts.
-- * `Auth.Query` is apps/frontend/src/store/baseApi.ts: a reply 401 to any request ends the
--   session of `Auth.Session`. `Auth.Forms` is apps/frontend/src/features/auth/utils/forms.ts.
--   `Auth.Routing` is apps/frontend/src/App.tsx with the guards ProtectedRoute.tsx and
--   GuestRoute.tsx and apps/frontend/src/features/auth/utils/routing.ts. `Auth.Submit` is the
--   handlers of apps/frontend/src/pages/LoginPage.tsx and
--   apps/frontend/src/pages/RegisterPage.tsx, which compose these, and `Auth.Fields` is what their
--   forms, LoginForm.tsx and RegisterForm.tsx, render.
-- * `Failure` is the functions of the pages and the upload card that make a message of an error.
-- * `Api` is the requests that the endpoints build, of
--   apps/frontend/src/features/batches/store/batchApi.ts, of authApi.ts and of usersApi.ts, and
--   the URLs of the event stream and of its refresh.
-- * `Details.Ledger` is an abstract view of a batch, its total and the status of each payment,
--   which the slice refines.
-- * `Csv` is apps/frontend/src/features/batches/utils/csv.ts, `Export` the CSV of the failed
--   payments of BatchProgressCard.tsx, `History` the computations of BatchHistoryCard.tsx, and
--   `Upload` the state and the handlers of BatchUploadCard.tsx.
-- * `Admin.Groups` and `Admin.Pages` are apps/frontend/src/pages/AdminBatchesPage.tsx,
--   `Admin.Users` is apps/frontend/src/pages/AdminUsersPage.tsx: the state of each page and a
--   step for each event, a handler being cut at its awaits.
-- * `History.Card`, `Upload.Card`, `Admin.Users.Page` and `Admin.Pages.View` are what those
--   components render, and `Pages` the pages of apps/frontend/src/pages that compose them.
--   `Export.Card` is what BatchProgressCard.tsx renders, and what the pages BatchDetailsPage.tsx
--   and AdminBatchDetailsPage.tsx hand to it. A document is the list of its tags and texts in the
--   order of the page (`Prelude.Html`).
-- * `LoadTest` is scripts/load/run.mjs, a client of the same API that measures it. `LoadTest.Args`
--   is its command line, `LoadTest.Rows` the files that it uploads, `LoadTest.Api` its requests
--   and `safeJson`, `LoadTest.Watch` and `LoadTest.Poll` the two waits for a batch,
--   `LoadTest.Scenario` a batch from its upload to its result, `LoadTest.Durations` the summary of
--   times, and `LoadTest.Report` the tasks that are launched, the report and the exit code. What
--   `fetch`, `reader.read()` and `performance.now()` give is listed in the arguments: reads for a
--   stream, rounds for the polling, both of which the functions recurse on. A thrown error is the
--   constructor `thrown` with its message. `Array.prototype.sort` is an insertion sort, which is
--   stable as that is.
--
-- Conventions
--
-- * A text is its list of UTF-16 code units. Counts are natural numbers. Subtraction stops at 0,
--   which is `Math.max(0, n - 1)`; elsewhere the code subtracts only where the result is not
--   negative.
-- * `Prelude.Double` is the division, the product with 100 and `Math.round` on IEEE doubles, as
--   `Math.round((a / b) * 100)` computes them: a mantissa of 53 bits, found by at most 106
--   doublings of the numerator or 12 halvings of the product. These bounds are enough for counts
--   below 2 ^ 53: a quotient of two such counts that is not 0 is above 2 ^ -53, so that 106
--   doublings fill its mantissa, and times 100 a mantissa grows by 7 bits. `Prelude.Double.Fuel`
--   has the proofs.
-- * `Number.parseInt` reads any number of digits and rounds to the nearest double with 1100
--   halvings, enough for a number below 2 ^ 1153; a double is below 2 ^ 1024, so that every number
--   that needs more is infinite. The rank of a percentile takes at most 54 halvings, which are
--   enough for a list of less than 2 ^ 53 values.
-- * What is not the program's is a parameter: `decode` is `JSON.parse` of an event's data with
--   the cast to its type, `lower` is `toLowerCase`, `show` the text of a number in a template
--   literal, `format` the formatter of a date, and `Platform` has `JSON.parse`, `JSON.stringify`, `atob` and the clock. The one law
--   that is assumed of them, `StoresUsers`, says that a stored user is read back.
-- * A value of JSON has natural numbers only. Properties that objects inherit, such as
--   `constructor`, are not considered.
--
-- Not modelled: the handlers that a rendered element is given and the keys of list items, the two
-- rates per second and the printing of the load test, the store's set-up, RTK Query and its cache,
-- `new URL`, the streaming `TextDecoder` (a chunk is the text that it gives), and the backend in
-- apps/backend, which the client sees only through what it answers.
pub mod Prelude
pub mod Batch
pub mod Details
pub mod Stream
pub mod Auth
pub mod Failure
pub mod Csv
pub mod Export
pub mod History
pub mod Upload
pub mod Admin
pub mod Pages
pub mod Api
pub mod LoadTest
pub mod Tests
