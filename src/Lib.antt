-- ===== src/Lib.antt =====
-- The verification library of the GPS connector's frontend (frontend/ of the repository).
--
-- The frontend registers GPS devices with a tenant by their IMEI, alone or from a CSV file, shows the
-- devices and their vehicle data, and draws vehicles and their trips on a map. Its parts interact as
-- follows: the pages call the client, the client calls the server's own routes, and those call the API
-- with the user's token; hooks keep what the client has loaded.
--
-- Files, and the code that they model:
--   Prelude      what the others share: tests, lists, texts, integers, sorting
--   Promise      settled promises and what they are rejected with
--   Imei         frontend/lib/imei.ts (validateImei, luhnCheck, parseImeis)
--   Client       frontend/lib/gps-client.ts: the types; Requests: what is sent; Calls and
--                Filename: how answers are read
--   Bulk         frontend/app/register/bulk-imei-tab.tsx (classify, the summaries) and
--                bulk-confirm-dialog.tsx; Bulk/Tab: the state and the handlers of the
--                tab; Bulk/Review: what it shows
--   Register     frontend/app/register/register-form.tsx (submitManual, submitBulk), frontend/lib/devices.ts,
--                devices-store.ts; Register/Manual: manual-imei-tab.tsx;
--                Register/Page: the page as a whole and what it shows
--   Hooks        frontend/hooks: TenantImeis, Devices, Overview, Certificate, Privileges; Requests: abortRef
--   Locations    frontend/lib/vehicle-locations.ts
--   Geo, Routes  frontend/lib/vehicle-routes.ts (chunkPositions, splitIntoTrips); Routes/Stitch:
--                stitchSegments; Routes/Fetch: matchChunk, matchTrip, fetchVehicleRoute
--   Vehicle      frontend/lib/vehicle.ts
--   Metadata     frontend/lib/metadata-csv.ts
--   Overview     frontend/app/overview/overview-table.tsx; Overview/Attach:
--                frontend/app/register/attach-vehicle-dialog.tsx; Overview/Import: import-metadata-dialog.tsx;
--                Overview/Columns: columns.tsx and the other texts of the tables
--   Proxy        frontend/lib/gps-proxy.ts; Proxy/Routes: frontend/app/api/gps, frontend/proxy.ts and
--                frontend/app/sign-out/route.ts
--   Panel        frontend/components/map-panel.tsx, frontend/lib/vehicle-status.ts: the list; Panel/View: the
--                panel as a whole; Panel/Details: VehicleDetails; Panel/Trips: RouteSection; Panel/Addresses:
--                the effect for the address; Panel/Address: frontend/lib/reverse-geocode.ts
--   MapView      frontend/components/map-view.tsx: the route of the active vehicle; MapView/Days: the day;
--                MapView/Drawing: what is drawn; MapView/Whole: these together; MapView/DayPicker:
--                map-day-picker.tsx; MapView/Markers: map-markers.tsx, the markers and their cache;
--                MapView/Clicks: what markers show and do
--   Certificate  frontend/components/tenant-certificate-card.tsx, certificate-status-badge.tsx and
--                confirm-dialog.tsx
--   Dropzone     frontend/components/csv-dropzone.tsx
--   Nav          frontend/components/main-nav.tsx, site-header.tsx
--
-- How the code is modelled. A string is the list of its UTF-16 code units. A component's state is a
-- record, and each `setState` a function on it. A handler that waits for a call has two functions: what
-- happens up to the call, and what happens to the state, as it is then, once the call has settled.
-- A handler is taken to see the latest state, and an effect to run at once with the change that it
-- depends on. Abort controllers are numbers in the order of their
-- creation. A map of settled calls is a list, and calls of `Promise.all` are taken to fail in order.
-- Times are natural numbers of seconds; a negative difference of two times fails the tests on stops, as
-- the difference cut at 0 does. `sort` is a stable insertion sort.
--
-- Parameters. Floating point numbers are the record `Floats` of Geo, without laws, the date library of the
-- day picker is `Dates`, and what writes numbers and dates in the panel is `Formats`. `Number`, `Date.parse`,
-- `toISOString`, `toLowerCase` and `localeCompare` are functions that the definitions take, as are the
-- map matching service, the login service and the API. No theorem assumes anything of them but what it says.
-- `toISOString` of the times of a past day's positions and of a route may throw, which is `none`; of the
-- device's own times and of the days of the picker it is taken not to. What the requests settle with is a
-- function of the request and, where a component makes the same one again, of its number (`World` of
-- MapView/Days, `calls` of Panel/Addresses).
--
-- Fuel. `chunks_from` has the number of positions as fuel: each round but the last drops 99 of them, and more
-- fuel gives the same chunks.
-- `decimal` has one more than the number, which has fewer digits. All else is structural recursion.
--
-- Not modelled: markup, but for what dialogs and forms show, the map library with the camera, the table library, the
-- component library, the set-up of the login, the abort signals of the server's routes, and all that is
-- not under frontend/.
pub mod Prelude
pub mod Imei
pub mod Promise
pub mod Client
pub mod Bulk
pub mod Hooks
pub mod Locations
pub mod Register
pub mod Geo
pub mod Routes
pub mod Vehicle
pub mod Metadata
pub mod Overview
pub mod Proxy
pub mod Certificate
pub mod Dropzone
pub mod Nav
pub mod Panel
pub mod MapView
