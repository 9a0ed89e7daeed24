-- ===== src/Lib.antt =====
-- G-Manager, the web application: a model of the logic that stands behind its pages, and what holds of it.
--
-- The program is a React application for the customers and the staff of a gaming venue. Its core logic
-- stands in TypeScript modules under frontend/g-manager/src; all paths below start there. A customer
-- fills a cart and submits it (order/), over an HTTP client that renews the access token
-- (api/client.ts) and with a key that keeps a repeated request from placing a second order
-- (api/idempotency.ts). The session store (auth/) says who is signed in, the capabilities and the
-- features what they may do, and the navigation what they see. The calendar lays out reservations,
-- a dialog finds a free slot and books it (reservations/customer/),
-- the board of the gaming stations says what the staff may do on a station, and a page of sessions lets
-- a user revoke devices. Drafts and cached reads are kept on the device (pwa/).
--
-- Common          lists, dictionaries, texts as code points, and the values that JSON holds
-- Auth            auth/authStore.ts, auth/capabilities.ts, feature/featureStore.ts and their types
-- Api.Http        what a request ends in, as the program looks at it
-- Api.Idempotency api/idempotency.ts
-- Api.Client      api/client.ts: refreshAccessToken, the interceptors, initializeSession
-- Api.Sse         api/sse.ts: consumeSse
-- Api.Stream      api/sse.ts: connectAuthenticatedStream
-- Api.Errors      api/errorMessage.ts, and apiErrorMessage and apiErrorDetails of api/client.ts
-- Audit           audit/auditDiff.ts: Diff has compareSnapshots, Lines has snapshotLines
-- Booking         reservations/customer/useCustomerBooking.ts: Slots, View, Timing and Choice have what a
--                 rendering computes, Steps the functions create and joinWaitlist cut where they wait,
--                 Machine the hook as a machine
--                 BusinessTime has both conversions of reservations/dateTime.ts
-- Messages        the error texts: reservations/bookingConflictReason.ts, waitlistError, settingsError,
--                 stationError, orderErrorMessage and customerReservationError
-- Order.Cart      order/cart.ts
-- Order.Customer  order/customer/useCustomerCart.ts: Draft has the stored draft, Edit the changes of the
--                 cart, Send the function send cut where it waits, Steps the hook as a machine
-- Order.Workflow  order/orderPresentation.model.ts: canChangeOrder, handlerLabel
-- Calendar.Weekly calendar/weeklyModel.ts: weeklyEvents
-- Layout          layout/navigation.ts
-- Routes          the guarded pages of App.tsx, and auth/CapabilityGuard.tsx
-- Notification    notification/notificationPreferences.ts
-- Gaming          gaming/operationsPresentation.ts
-- Pwa             pwa/clientStorage.ts
-- Sessions        sessions/useSessionDashboard.ts, the hook as a machine, and
--                 sessions/sessionPresentation.model.ts
-- Stations        stations/clientPackageDistribution.ts (Package), and versions, connection and warnings
--                 of stations/stationPresentation.model.ts (Presentation)
--
-- State is passed explicitly. A hook that waits is a machine: its events are the calls from the page
-- and the answers that it waits for, in any order, each with the context in which it is handled. The
-- modules named Laws, or after what they prove, hold the theorems; those named Tests run the
-- definitions on concrete inputs.
--
-- Numbers. Prices and quantities are natural numbers, prices in thousandths; a number that was stored is a
-- JsNumber, a count of thousandths that may be negative or not finite. Rounding of binary floating point
-- is not modelled. Instants are milliseconds since 1970.
--
-- Parameters. Random keys, the order of localeCompare, the cache of offline reads, the answers of the
-- server and the products that the query cache has resolved are arguments. The decoder of a stream has
-- been applied, so a chunk is a list of code points. JSON.parse, JSON.stringify, Date.parse,
-- Date.UTC and the formatter of the business's time zone are arguments. Messages for the user are texts where the code computes
-- them from others, and constructors elsewhere. A table of messages is looked up by its own entries.
-- Array.prototype.sort is insertion sort, which is stable as the language asks.
--
-- Fuel. A request with all its repetitions needs fuel for two attempts, since a repetition is marked and
-- not repeated again. The loop that takes frames from a buffer has the length of the buffer as fuel,
-- since every frame is followed by two line ends. The comparison and the display of two states recurse on
-- the depth that is left of the 24 that the code allows. The search for the instant of a local time has the four
-- attempts of the code.
--
-- Interface. The platform of the stored drafts is a record of the cipher and of JSON, with the laws that what
-- was encrypted is decrypted under the same key and vector, and that a draft of values that JSON can hold
-- is read back from its text.
--
-- Not modelled: the pages and their rendering, the query cache, several
-- requests that wait for one refresh, the rules of a time zone, bookings by the staff, the server and the Windows client.
pub mod Common
pub mod Auth
pub mod Api
pub mod Audit
pub mod Order
pub mod Booking
pub mod Calendar
pub mod Layout
pub mod Messages
pub mod Notification
pub mod Gaming
pub mod Sessions
pub mod Stations
pub mod Pwa
pub mod Routes
