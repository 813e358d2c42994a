-- ===== src/Lib.antt =====
-- The web client of the photo platform, as definitions that follow its TypeScript code, with the
-- theorems that make it correct; and the mobile client.
--
-- Each page of frontend/src is a module of its own, and so is each service that the pages share.
-- Paths without a first folder are in frontend/src:
--
-- - Prelude: numbers, lists, texts as UTF-16 code units, and what a component renders. A rendered
--   page is the list of its visible nodes; a control carries the message that its handler stands
--   for, and `Offers m nodes` says that the user can send the message `m`.
-- - Format: utils/format.ts of both clients (formatFileSize).
-- - Auth: store/authStore.ts, the store's memory together with the keys of localStorage.
-- - Api: api/images.ts, tags.ts, admin.ts and auth.ts, a constructor of `Call` for each function.
--   Api/Backend has the route table of backend/internal/router/router.go.
-- - Http: api/client.ts, the two interceptors (`authorize`, `on_answer`) and the retry (`client`);
--   Http/Calls has the same with any number of calls under way at once; in Http/InTurn each call
--   waits for the one before it, and `Promises` is what the backend promises of its tokens, for the
--   routes behind its middleware.
-- - Media: images, tags and the effects of handlers (calls, messages, navigation, stale queries).
-- - Gallery: pages/gallery/GalleryPage.tsx; Gallery/Card and Gallery/View have what it renders.
-- - Upload: pages/upload/UploadPage.tsx; the loop of handleUpload between two answers is the field
--   `run` of the state. Upload/Sending sets the page on top of Http.
-- - SignIn: pages/auth/AuthPage.tsx, both forms.
-- - Comments: components/comments/CommentsSection.tsx.
-- - Routes: App.tsx with ProtectedRoute and AdminRoute; Routes/Layout: AppLayout.tsx.
-- - Admin: pages/admin/TagManagePage.tsx, UserManagementPage.tsx, ImageManagementPage.tsx and
--   DashboardPage.tsx, of which Admin/Dashboard/Lines has what the charts draw.
-- - Detail: pages/gallery/ImageDetailPage.tsx.
-- - Profile: pages/profile/ProfilePage.tsx. Spark has what its small charts and those of the
--   dashboard share.
-- - Landing: pages/LandingPage.tsx and pages/NotFoundPage.tsx.
-- - Cursor: hooks/useCursor.tsx, without the place of the cursor, which follows springs.
-- - Mobile: mobile/src. Session is store/authStore.ts, Client is api/client.ts, with Client/Calls for
--   any number of calls at once (Client/Web and Client/Calls/Alike set them against the web client),
--   Api the other files of api/, Navigation is navigation/RootNavigator.tsx. Feed is the endless list that screens/GalleryScreen.tsx and
--   LandingScreen.tsx share (modules Gallery, Landing and Card), Forms has LoginScreen.tsx and
--   RegisterScreen.tsx, and Upload, Detail, Profile and Admin are the screens of those names.
--
-- A page is a state with a field for each `useState`, and `update`, which maps a message and a
-- state to the next state and the effects, in their order. An asynchronous handler is cut at its
-- waits: its first part makes the call, and the answer comes back as a message. So any interleaving
-- of what the user does with the answers is a sequence of messages. What a page reads and does not
-- keep (the address, the session's user, the results of its queries) is a record `Env`.
--
-- React renders a screen and then runs its effects: `commit` of Mobile/Feed does both, and tells
-- whether an effect has set the state, which asks for another render.
--
-- Fuel: `client` (of both clients) has fuel for passages through the interceptors, and two are
-- enough, since a retried request is not retried again; `visit` has fuel for redirects, and two
-- addresses are enough; `settle` answers one upload for each unit, and one for each waiting file is
-- enough.
--
-- Parameters: the network (`Network`), `arrayMove` of @dnd-kit, the choice of a route by
-- react-router (`IsRouter`), the clock and the days between dates. Numbers are natural numbers,
-- which the code's doubles hold exactly in the ranges used; a rounded quotient is rounded from the
-- exact one.
--
-- While its loop of uploads runs, the upload page offers no start of another; the message for it would
-- replace the loop in the model, where the source would run a second one beside it.
--
-- Not modelled: styles and animations, smooth scrolling, where the landing page's images float in
-- space, the stacks of the mobile navigation, the Go backend, monitoring and deployment. The backend
-- appears in its route table and in what it answers.
pub mod Prelude
pub mod Format
pub mod Auth
pub mod Api
pub mod Http
pub mod Media
pub mod Gallery
pub mod Upload
pub mod SignIn
pub mod Spark
pub mod Comments
pub mod Cursor
pub mod Routes
pub mod Admin
pub mod Detail
pub mod Profile
pub mod Mobile
pub mod Landing
